-- ===== src/Exits.antt =====
-- The exit engine, backend/app/strategies/exit.py.
pub mod Decisions
pub mod Prices
pub mod Plans
pub mod Triggers
pub mod Choice
