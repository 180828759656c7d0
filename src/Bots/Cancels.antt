-- ===== src/Bots/Cancels.antt =====
-- `_cancel_active_orders` of backend/app/trading/bot_lifecycle.py: the loop that cancels the
-- orders of a bot through the order manager. Each cancel waits; what other tasks do then, and how
-- the broker answers, are functions of the order id.
use veles_moex.Common.{
  ℕ, ◌==◌, String, Bool, false, not, ◌&&◌, ◌||◌, Option, none, some, List, [], ◌∷◌, if◌then◌else◌,
}
use veles_moex.Domain.{InternalOrder, OrderState, is_terminal, eq_state}
use veles_moex.Repository
use veles_moex.Orders.State.{OrderManager, ok, Action, ◌>>=◌, pure}
use veles_moex.Orders.Submit.{after_wait}
use veles_moex.Orders.Cancel.{cancel}

abbrev pub is_bot : ℕ → Option ℕ → Bool
is_bot id none = false
is_bot id (some bot) = bot == id

-- Another bot's order is passed over, and so is one that is over or already asked off.
abbrev pub to_cancel : ℕ → InternalOrder → Bool
to_cancel id o =
    is_bot id o.bot_id
    && not (is_terminal o.status || eq_state o.status OrderState.cancel_requested)

cancel_each :
    ℕ
    → List InternalOrder
    → (String → OrderManager → OrderManager)
    → (String → Bool)
    → Action (Unit {0})
cancel_each id [] meanwhile done m = pure tt m
cancel_each id (o ∷ os) meanwhile done m =
    let rest = cancel_each id os meanwhile done in
    if to_cancel id (after_wait o m)
    then (cancel o.order_id (meanwhile o.order_id) (done o.order_id) >>= λ _. rest) m
    else rest m

-- `wired` says whether the bot has an order manager.
unfoldable pub cancel_active_orders :
    Bool → ℕ → (String → OrderManager → OrderManager) → (String → Bool) → Action (Unit {0})
unfolding cancel_each
cancel_active_orders wired id meanwhile done m =
    if wired then cancel_each id (Repository.list_orders m.orders) meanwhile done m else (ok tt, m)
