-- ===== src/Errors.antt =====
-- The exceptions that the modelled code raises, in one type so that the services' calls compose.
-- Messages are left out.
pub data Error : Type 0 where
  -- core/money.py
  precision_exceeded zero_division invalid_weights : Error
  -- services/ledger, models/ledger
  invalid_posting_leg unbalanced_entry already_terminal missing_account missing_security : Error
  multiple_results dimension_mismatch : Error
  -- services/lots
  insufficient_lots unknown_tax_lot not_a_trading_day invalid_ratio : Error
  -- services/orders
  customer_not_found customer_kyc customer_approval insufficient_investable_cash : Error
  order_not_found invalid_order_transition order_not_cancellable no_broker_order_id : Error
  invalid_fill_payload not_a_number integrity_error broker_error : Error
  -- services/identity
  no_active_bank_link bank_reauth_required cap_per_transaction cap_per_day : Error
  obligation_not_found insufficient_withdrawable_cash kyc_locked kyc_unknown_session : Error
  kyc_unrecognized_status kyc_already_resolved kyc_port_missing : Error
  -- services/fees, models/ops, core
  attempt_number_below_one fee_charge_not_found no_payment_method invalid_transition
        row_not_claimed :
      Error
  date_out_of_range duration_out_of_range calendar_exhausted limit_not_positive limit_too_large
        no_assigned_model :
      Error
  calendar_cache_miss already_resolved check_violation immutable_fields : Error
  -- controllers/admin/agent_requests.py
  execution_failed_error request_not_found : Error
  -- services/orders/lot_designation_service.py
  designation_not_allowed_for_buy empty_designation duplicate_designation : Error
  too_many_designated_lots insufficient_designated_lots : Error
  -- core/money.py's decimals, services/valuation, services/restatement
  invalid_operation numeric_overflow snapshot_cross_check_failed snapshot_derivation : Error
  -- controllers/api/orders.py
  security_not_found idempotency_conflict forbidden idempotency_key_missing : Error
  unauthenticated validation_failed : Error
