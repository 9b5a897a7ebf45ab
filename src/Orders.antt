-- ===== src/Orders.antt =====
-- services/orders and models/orders: an order, the events that the broker and the service append to
-- it, the projection that they fold into, and the cash that it holds.
pub mod Projection
pub mod Arrival
pub mod Filled
pub mod Holds
pub mod Service
pub mod Submission
pub mod Retry
pub mod Created
pub mod TradeUpdates
pub mod Recorded
pub mod Unique
pub mod Designation
pub mod Covered
pub mod Designated
pub mod Sellable
pub mod Endpoints
pub mod Replayed
