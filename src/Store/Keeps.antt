-- ===== src/Store/Keeps.antt =====
-- A predicate that an action keeps whenever it returns, with a rule for each way to build actions.
use trueup.Prelude.{refl, ap, ◌≡◌, Bool, true, false, Result, ok, err, if◌then◌else◌}
use trueup.Errors.{Error}
use trueup.Store.{Store, Action, pure, raise, gets, lift, guard, modify, ◌>>=◌}

-- An error carries no store, and promises nothing.
abbrev pub Holds : {A : Type 0} → (Store → Type 0) → Result Error (A × Store) → Type 0
Holds P (ok (a, s)) = P s
Holds P (err e) = Unit

pub record Keeps (P : Store → Type 0) {A : Type 0} (m : Action A) : Type 0 where
  pub at : (s : Store) → P s → Holds P (m s)

Holds-bind :
    (P : Store → Type 0) {A B : Type 0} (r : Result Error (A × Store)) (f : A → Action B)
    → Holds P r
    → ((a : A) → Keeps P (f a))
    → Holds P (elim r [ ok (a, s') ↦ f a s' | err e ↦ err e ])
Holds-bind P (ok (a, s)) f h k = (k a).at s h
Holds-bind P (err e) f h k = tt

pub Holds_elim :
    (P : Store → Type 0) {A : Type 0} (r : Result Error (A × Store)) {a : A} {s : Store}
    → Holds P r
    → r ≡ ok (a, s)
    → P s
Holds_elim P r {a} {s} h e = let h' : Holds P (ok (a, s)) = rw e at h in h'

-- The same with a predicate that moves on.
pub Holds-then :
    (P Q : Store → Type 0) {A B : Type 0} (r : Result Error (A × Store)) (f : A → Action B)
    → Holds P r
    → ((a : A) (s : Store) → P s → Holds Q (f a s))
    → Holds Q (elim r [ ok (a, s') ↦ f a s' | err e ↦ err e ])
Holds-then P Q (ok (a, s)) f h k = k a s h
Holds-then P Q (err e) f h k = tt

-- An action that leads from one predicate to another.
pub record Leads (P Q : Store → Type 0) {A : Type 0} (m : Action A) : Type 0 where
  pub at : (s : Store) → P s → Holds Q (m s)

pub Leads-bind :
    {P Q : Store → Type 0} {A B : Type 0} {m : Action A} {f : A → Action B}
    → Keeps P m
    → ((a : A) → Leads P Q (f a))
    → Leads P Q (m >>= f)
Leads-bind {P} {Q} {m = m} {f = f} k l = record {
  at = λ s h. Holds-then P Q (m s) f (k.at s h) (λ a s' h'. (l a).at s' h');
}

pub Leads-modify :
    {P Q : Store → Type 0} (f : Store → Store)
    → ((s : Store) → P s → Q (f s))
    → Leads P Q (modify f)
Leads-modify f h = record { at = λ s k. h s k }

module _ {P : Store → Type 0} {A : Type 0} where
  pub Keeps-bind :
      {B : Type 0} {m : Action A} {f : A → Action B}
      → Keeps P m
      → ((a : A) → Keeps P (f a))
      → Keeps P (m >>= f)
  Keeps-bind {m = m} {f = f} k l = record { at = λ s h. Holds-bind P (m s) f (k.at s h) l }

  pub Keeps-pure : (a : A) → Keeps P (pure a)
  Keeps-pure a = record { at = λ s h. h }

  pub Keeps-raise : (e : Error) → Keeps P (raise {A = A} e)
  Keeps-raise e = record { at = λ s h. tt }

  pub Keeps-gets : (f : Store → A) → Keeps P (gets f)
  Keeps-gets f = record { at = λ s h. h }

  pub Keeps-lift : (r : Result Error A) → Keeps P (lift r)
  Keeps-lift (ok a) = record { at = λ s h. h }
  Keeps-lift (err e) = record { at = λ s h. tt }

  pub Keeps-if : (b : Bool) {m k : Action A} → Keeps P m → Keeps P k → Keeps P (if b then m else k)
  Keeps-if true h l = h
  Keeps-if false h l = l

pub Keeps-guard : {P : Store → Type 0} (b : Bool) (e : Error) → Keeps P (guard b e)
Keeps-guard true e = record { at = λ s h. tt }
Keeps-guard false e = record { at = λ s h. h }

-- An update that leaves what the predicate reads alone.
pub Keeps-modify :
    {P : Store → Type 0} (f : Store → Store) → ((s : Store) → P s → P (f s)) → Keeps P (modify f)
Keeps-modify f h = record { at = λ s k. h s k }

pub ruleset keeps_rules =
    (Keeps-bind, Keeps-pure, Keeps-raise, Keeps-gets, Keeps-lift, Keeps-if, Keeps-guard)

-- A bind after an action that returned.
pub bind-at :
    {A B : Type 0} (m : Action A) (f : A → Action B) (s : Store) {a : A} {s1 : Store}
    → m s ≡ ok (a, s1)
    → (m >>= f) s ≡ f a s1
bind-at m f s e = ap (λ r. elim r [ ok (a, s1) ↦ f a s1 | err e ↦ err e ]) e

-- What a bind that returned went through.
pub bind-ok :
    {A B : Type 0} (m : Action A) (f : A → Action B) (s : Store) {b : B} {s' : Store}
    → (m >>= f) s ≡ ok (b, s')
    → (a : A) × (s1 : Store) × (m s ≡ ok (a, s1)) × (f a s1 ≡ ok (b, s'))
bind-ok m f s e = after (m s) refl e
  where
    after :
        {A B : Type 0} {f : A → Action B} {m : Result Error (A × Store)} {b : B} {s' : Store}
        (r : Result Error (A × Store))
        → m ≡ r
        → (elim r [ ok (a, s1) ↦ f a s1 | err e ↦ err e ]) ≡ ok (b, s')
        → (a : A) × (s1 : Store) × (m ≡ ok (a, s1)) × (f a s1 ≡ ok (b, s'))
    after (ok (a, s1)) e k = (a, s1, e, k)
    after (err x) e k = cc

pub lift-ok :
    {A : Type 0} (r : Result Error A) (s : Store) {a : A} {s' : Store}
    → lift r s ≡ ok (a, s')
    → (s' ≡ s) × (r ≡ ok a)
lift-ok (ok a) s e = (cc, cc)
lift-ok (err x) s e = cc

pub guard-ok :
    (b : Bool) (x : Error) (s : Store) {s' : Store}
    → guard b x s ≡ ok (tt, s')
    → (s' ≡ s) × (b ≡ false)
guard-ok true x s e = cc
guard-ok false x s e = (cc, refl)
