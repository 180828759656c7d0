-- ===== src/Tests.antt =====
-- Runs of the code at concrete inputs.
mod Data
mod Lifecycles
mod Positions
mod OrderCalls
mod Guards
mod Grids
mod DealStore
mod Plans
mod Dealings
mod Restarts
