-- ===== src/Lib.antt =====
-- Verification of the live trading core of Veles-MOEX (backend/app).
--
-- The program trades on an exchange for bots. A bot's plan becomes intents; the order manager
-- turns an intent into an order, sends it to the broker and follows it by the broker's events;
-- fills move the position manager. The risk manager guards each order and the number of bots that
-- run. The deal manager follows one deal of a bot: the grid of entry orders, the take-profit and the
-- stop. The order manager, the position manager, the risk manager, the grid, the sizing and the exit
-- engine are modelled whole, and so is the deal manager, with the data they exchange and the
-- repositories they keep; of a bot its state machine.
--
-- Which file models what:
--   Common, Common/Texts     Boolean tests, Python's str, int, strip, rsplit on texts
--   Decimal and below        Decimal as a count of a smallest unit; `*` and `/`, which round, are
--                            the arguments of a `Context`
--   Dict                     Python's dict, and with it the simple repositories of
--                            backend/app/trading/repository.py
--   Repository               InMemoryOrderRepository of backend/app/trading/repository.py
--   Domain and below         backend/app/models/enums.py, backend/app/trading/domain.py, and the
--                            order messages of backend/app/brokers/base.py
--   Position and below       backend/app/trading/position_manager.py: each method is a function on
--                            a `PositionManager`
--   Orders and below         backend/app/trading/order_manager.py. State has the state and the
--                            shape of a method, Submit, Cancel, Events and Snapshot the methods;
--                            Kept, Stored, Tracks, Guarantee and Delivery show what every method
--                            keeps; Promises, Intents, Quiet, Races, Landing and Restart have the
--                            promises to the callers
--   Risk and below           backend/app/trading/risk_manager.py
--   Bots and below           the state machine of a bot and the registry of the bots,
--                            backend/app/trading/bot_lifecycle.py
--   Deals and below          the record of a deal, its store and the alignment of prices,
--                            backend/app/trading/deal.py
--   Strategies               the fields of backend/app/strategies/config.py and domain.py that the
--                            grid and the exits read, and `Floats`, what the code does with floats
--   Grid and below           backend/app/strategies/dca_grid.py: the levels of a grid, Prices, Build
--                            and Average its methods, Active, Fresh, Life and Filling what is kept
--                            through its life; Sizing is backend/app/trading/sizing.py, Amounts and Lots what it
--                            gives with the grid
--   Exits and below          backend/app/strategies/exit.py
--   Dealing and below        backend/app/trading/deal_manager.py. Dealing has the state and the shape
--                            of a method, Failures, Closing, TakeProfit, Stops, Levels, Fills, Watch,
--                            Restore, Recovery and Opening the methods; Scope is the check of the
--                            configuration in backend/app/trading/deal.py; Cover, Promotion and
--                            Blocks show what they promise
--   Tests and below          runs at concrete inputs
--
-- How the code is read. A method takes the manager and returns a result or an error together with
-- the manager, since what is written before a raise stays written. An order object is one entry of
-- the repository, and setting its fields rewrites that entry. A method that awaits the broker
-- takes two more arguments: what other tasks do to the manager meanwhile, any function that keeps
-- `Keeps` (the hypothesis `Rely`), and what the broker answers. A snapshot is not loaded during a
-- wait. The clock is a field or an argument, times are numbers, ids are texts. A method of the deal
-- manager awaits several times: it works on a `Scene`, the manager with the deal at hand, which only
-- this method changes, and its awaits take the moments of a `Surroundings` one after the other. A
-- `Decimal` division by zero in the grid, and an exception of the grid, is `none`. The one loop that
-- is not over a list, the promotion of waiting levels, runs on as much fuel as there are waiting
-- levels and one more.
--
-- Not modelled: the broker's adapter and its network, the database, the HTTP interface and the
-- user interface; entry signals, filters and indicators, the scheduler and the backtest.
pub mod Common
pub mod Decimal
pub mod Dict
pub mod Domain
pub mod Position
pub mod Repository
pub mod Orders
pub mod Tests
pub mod Risk
pub mod Deals
pub mod Bots
pub mod Grid
pub mod Strategies
pub mod Exits
pub mod Dealing
