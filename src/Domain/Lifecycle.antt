-- ===== src/Domain/Lifecycle.antt =====
-- The order lifecycle as a relation: `ALLOWED_TRANSITIONS` and `TERMINAL_STATES` of
-- backend/app/trading/domain.py.
use veles_moex.Common.{◌≡◌, refl, ◌↔◌, true, false, arith}
use veles_moex.Domain.{OrderState, is_terminal, can_transition}

-- The states that a chain of allowed transitions leads to.
pub data Reach (s : OrderState) : OrderState → Type 0 where
  here : Reach s s
  next : {t u : OrderState} → Reach s t → can_transition t u ≡ true → Reach s u

pub Reach-trans : {s t u : OrderState} → Reach s t → Reach t u → Reach s u
Reach-trans r here = r
Reach-trans r (next q e) = next (Reach-trans r q) e

-- A state is terminal exactly when no transition leaves it.
pub terminal_iff_stuck :
    (s : OrderState) → (is_terminal s ≡ true) ↔ ((t : OrderState) → can_transition s t ≡ false)
terminal_iff_stuck s = (stuck s, λ h. terminal s (h OrderState.failed))
  where
    stuck : (s : OrderState) → is_terminal s ≡ true → (t : OrderState) → can_transition s t ≡ false
    stuck s h t = ground arith

    terminal : (s : OrderState) → can_transition s OrderState.failed ≡ false → is_terminal s ≡ true
    terminal s h = ground arith

-- An order in a terminal state stays in it, whatever transitions are made.
pub terminal-absorbs : {s t : OrderState} → Reach s t → is_terminal s ≡ true → t ≡ s
terminal-absorbs here h = refl
terminal-absorbs {s} (next {t = t} {u = u} r e) h =
    let still = terminal-absorbs r h in absurd (clash s t u still h e)
  where
    clash : (s t u : OrderState) → t ≡ s → is_terminal s ≡ true → can_transition t u ≡ true → ⊥
    clash s t u p h e = ground arith

-- No order comes back to `created`.
pub created_is_first :
    {s t : OrderState} → Reach s t → t ≡ OrderState.created → s ≡ OrderState.created
created_is_first here e = e
created_is_first (next {t = t} {u = u} r e) p = absurd (never t u e p)
  where
    never : (t u : OrderState) → can_transition t u ≡ true → u ≡ OrderState.created → ⊥
    never t u e p = ground arith
