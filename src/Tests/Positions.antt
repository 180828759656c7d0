-- ===== src/Tests/Positions.antt =====
-- Positions at concrete fills: a long position that grows, closes and reverses.
use veles_moex.Common.{◌≡◌, refl, none, [], ◌∷◌, true}
use veles_moex.Decimal.{pos, ◌+ℤ◌}
use veles_moex.Decimal.Exact.{whole, whole-IsExact, times}
use veles_moex.Dict
use veles_moex.Domain.{buy, sell, short}
use veles_moex.Position.{Position, PositionManager, fill_position, position_state, resolve_quantity}
use veles_moex.Position.Quantity.{Execution, held, net, apply_all, held-apply_all}
use veles_moex.Position.Profit.{average_price-fill_position, worth, worth-fill_position}
use veles_moex.Position.States.{state_seen, position_state-resolve_quantity}

abbrev ten_shares : Position
ten_shares = record {
  instrument_figi = "SBER";
  quantity = pos 10;
  average_price = pos 250;
  realized_pnl = pos 0;
  fees = pos 0;
  current_price = none;
  unrealized_pnl = pos 0;
  updated_at = none;
}

abbrev nothing_held : PositionManager
nothing_held = record { positions = Dict.empty; reconciled = true }

abbrev portfolio : PositionManager
portfolio = record { positions = Dict.put Dict.empty "SBER" ten_shares; reconciled = true }

abbrev bought : Execution
bought = record {
  figi = "SBER";
  side = buy;
  quantity = pos 10;
  price = pos 250;
  fee = pos 1;
  timestamp = none;
  now = 3;
}

abbrev sold : Execution
sold = record {
  figi = "SBER";
  side = sell;
  quantity = pos 4;
  price = pos 251;
  fee = pos 1;
  timestamp = none;
  now = 4;
}

held-apply_all_example :
    held (apply_all ⦃ctx = whole⦄ (bought ∷ sold ∷ []) nothing_held) "SBER"
    ≡ held nothing_held "SBER" +ℤ net "SBER" (bought ∷ sold ∷ [])
held-apply_all_example = held-apply_all ⦃ctx = whole⦄ (bought ∷ sold ∷ []) "SBER" nothing_held

average_price-fill_position_example :
    (fill_position ⦃ctx = whole⦄ ten_shares (pos 10) (pos 240)).average_price ≡ pos 245
unfolding times ◌+ℤ◌
average_price-fill_position_example =
    average_price-fill_position ⦃ctx = whole⦄ ten_shares (pos 10) (pos 240)

worth-fill_position_example :
    worth ⦃ctx = whole⦄ (fill_position ⦃ctx = whole⦄ ten_shares (pos 10) (pos 240)) (pos 240)
    ≡ worth ⦃ctx = whole⦄ ten_shares (pos 240)
unfolding times ◌+ℤ◌
worth-fill_position_example =
    worth-fill_position ⦃ctx = whole⦄ whole-IsExact ten_shares (pos 10) (pos 240) (λ h. refl)

position_state-resolve_quantity_example :
    position_state portfolio "SBER" short ≡ state_seen (resolve_quantity portfolio "SBER" short)
position_state-resolve_quantity_example =
    position_state-resolve_quantity portfolio "SBER" short refl
