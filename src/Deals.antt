-- ===== src/Deals.antt =====
-- Deals, backend/app/trading/deal.py: the record of a deal, its store, and the alignment of
-- prices to the tick of an instrument.
pub mod Ticks
pub mod Store
