-- ===== src/Orders/Arrival.antt =====
-- The projection depends on the events, and not on the order in which they were written down.
use trueup.Prelude.{◌≡◌, ◌≢◌, refl, ap, ◌∙◌, List, [], ◌∷◌, arith}
use trueup.Money.{Units}
use trueup.Store.{OrderEvent}
use trueup.Orders.Projection.{insert_event, sort_events, fold}

-- Lists of events that differ by exchanges of neighbours with different sequence numbers, which the
-- constraint `uq_order_event_order_id_seq` makes all of them.
pub data Reordered : List OrderEvent → List OrderEvent → Type 0 where
  same : {es : List OrderEvent} → Reordered es es
  keep : (e : OrderEvent) {es fs : List OrderEvent} → Reordered es fs → Reordered (e ∷ es) (e ∷ fs)
  swap :
      (e f : OrderEvent) {es : List OrderEvent}
      → e.seq ≢ f.seq
      → Reordered (e ∷ f ∷ es) (f ∷ e ∷ es)
  and_then : {es fs gs : List OrderEvent} → Reordered es fs → Reordered fs gs → Reordered es gs

insert-insert :
    (e f : OrderEvent) (es : List OrderEvent)
    → e.seq ≢ f.seq
    → insert_event e (insert_event f es) ≡ insert_event f (insert_event e es)
unfolding insert_event
insert-insert e f [] ne = ground arith
insert-insert e f (x ∷ es) ne = let rest = insert-insert e f es ne in ground arith

sort_events-Reordered :
    {es fs : List OrderEvent} → Reordered es fs → sort_events es ≡ sort_events fs
unfolding sort_events
sort_events-Reordered same = refl
sort_events-Reordered (keep e r) = ap (insert_event e) (sort_events-Reordered r)
sort_events-Reordered (swap e f ne) = insert-insert e f _ ne
sort_events-Reordered (and_then r q) = sort_events-Reordered r ∙ sort_events-Reordered q

-- The projection of an order is the same in whatever order its events arrived, as long as two
-- events that change places have different sequence numbers.
pub fold-Reordered :
    (es fs : List OrderEvent) (requested : Units)
    → Reordered es fs
    → fold es requested ≡ fold fs requested
unfolding fold
fold-Reordered es fs requested r = rw (sort_events-Reordered r)
