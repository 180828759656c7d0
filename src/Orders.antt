-- ===== src/Orders.antt =====
-- The order manager, backend/app/trading/order_manager.py: its state, its methods, and what they
-- keep.
pub mod State
pub mod Submit
pub mod Events
pub mod Cancel
pub mod Snapshot
pub mod Numbers
pub mod Kept
pub mod Stored
pub mod Tracks
pub mod Guarantee
pub mod Delivery
pub mod Promises
pub mod Intents
pub mod Quiet
pub mod Races
pub mod Landing
pub mod Restart
