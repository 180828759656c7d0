-- ===== src/Deals/Ticks/Bounds.antt =====
-- Aligned prices and the prices that they are made of.
use veles_moex.Common.{
  ℕ, ◌≡◌, refl, sym, ap, ◌∙◌, ◌+◌, ◌*◌, ◌/◌, ◌≤◌, ◌<◌, some, arith, ◌⊎◌, inl, inr, Bool-cases,
  if◌then◌else◌,
}
use veles_moex.Decimal.{ℤ, pos, ◌+ℤ◌, ◌-ℤ◌, ◌≤ℤ◌, ◌<ℤ◌, eq_ℤ, int_laws}
use veles_moex.Decimal.Exact.{times}
use veles_moex.Domain.{long, short}
use veles_moex.Deals.Ticks.{
  whole_ticks, down_to, up_to, one_more, align_grid_price, align_tp_price, align_stop_price,
  require_tick, round_down_to_tick, round_up_to_tick,
}
use native.Mathlib.Nat.{mod-lt, div-add-mod}

times-pos : (a b : ℕ) → times (pos a) (pos b) ≡ pos (a * b)
unfolding times
times-pos a b = ground arith

-- The count of ticks below a price.
below : (p t : ℕ) → 0 < t → (p / t * t ≤ p) × (p < p / t * t + t)
below p t h =
    (omega (arith, div-add-mod p t, mod-lt p h), omega (arith, div-add-mod p t, mod-lt p h))

down_to_pos : (p t : ℕ) → down_to (pos p) (pos t) ≡ pos (p / t * t)
unfolding whole_ticks
down_to_pos p t = times-pos (p / t) t

-- The price is on a tick, or strictly above one.
more_cases :
    (p t : ℕ)
    → 0 < t
    → ((one_more (pos p) (pos t) ≡ pos 0) × (p ≡ p / t * t))
      ⊎ ((one_more (pos p) (pos t) ≡ pos 1) × (p / t * t < p))
more_cases p t h = rw down_to_pos (go (p / t * t) (below p t h).0)
  where
    go :
        (d : ℕ)
        → d ≤ p
        → (((if eq_ℤ (pos p -ℤ pos d) (pos 0) then pos 0 else pos 1) ≡ pos 0) × (p ≡ d))
          ⊎ (((if eq_ℤ (pos p -ℤ pos d) (pos 0) then pos 0 else pos 1) ≡ pos 1) × (d < p))
    go d lower = elim (Bool-cases (eq_ℤ (pos p -ℤ pos d) (pos 0))) [
      | inl on ↦ inl (rw on, grind (int_laws, on))
      | inr off ↦ inr (rw off, grind (int_laws, off, lower))
    ]

plus_one : (k : ℕ) → pos k +ℤ pos 1 ≡ pos (k + 1)
unfolding ◌+ℤ◌
plus_one k = ground arith

plus_none : (k : ℕ) → pos k +ℤ pos 0 ≡ pos k
unfolding ◌+ℤ◌
plus_none k = ground arith

up_to_pos :
    (p t : ℕ)
    → 0 < t
    → ((up_to (pos p) (pos t) ≡ pos (p / t * t)) × (p ≡ p / t * t))
      ⊎ ((up_to (pos p) (pos t) ≡ pos ((p / t + 1) * t)) × (p / t * t < p))
unfolding whole_ticks
up_to_pos p t h = elim (more_cases p t h) [
  | inl (none_more, on) ↦ inl (
    ap (λ k. times (pos (p / t) +ℤ k) (pos t)) none_more
        ∙ ap (λ k. times k (pos t)) (plus_none (p / t))
        ∙ times-pos (p / t) t,
    on,
  )
  | inr (more, off) ↦ inr (
    ap (λ k. times (pos (p / t) +ℤ k) (pos t)) more
        ∙ ap (λ k. times k (pos t)) (plus_one (p / t))
        ∙ times-pos (p / t + 1) t,
    off,
  )
]

-- A multiple of the tick.
IsAligned : ℤ → ℤ → Type 0
IsAligned r tick = (n : ℕ) × (r ≡ times (pos n) tick)

-- The two roundings of a price: both on the tick, each less than a tick away on its side.
pub record Around (price tick low high : ℤ) : Type 0 where
  low_aligned : IsAligned low tick
  high_aligned : IsAligned high tick
  low_below : low ≤ℤ price
  low_near : price <ℤ low +ℤ tick
  high_above : price ≤ℤ high
  high_near : high <ℤ price +ℤ tick

Around-pos :
    (p t low high : ℕ)
    → (n : ℕ) × (low ≡ n * t)
    → (n : ℕ) × (high ≡ n * t)
    → low ≤ p
    → p < low + t
    → p ≤ high
    → high < p + t
    → Around (pos p) (pos t) (pos low) (pos high)
unfolding IsAligned ◌+ℤ◌
Around-pos p t low high (j, e) (k, e') a b c d = record {
  low_aligned = (j, ap pos e ∙ sym (times-pos j t));
  high_aligned = (k, ap pos e' ∙ sym (times-pos k t));
  low_below = omega (arith, a);
  low_near = ground (arith, b);
  high_above = omega (arith, c);
  high_near = ground (arith, d);
}

around :
    (p t : ℕ) → 0 < t → Around (pos p) (pos t) (down_to (pos p) (pos t)) (up_to (pos p) (pos t))
around p t h =
    let (lower, near) = below p t h in
    let k = p / t in
    elim (up_to_pos p t h) [
      | inl (up, on) ↦
          rw (up, down_to_pos)
            (Around-pos p t (k * t) (k * t) (k, refl) (k, refl) lower near (omega (arith, on))
              (omega (arith, lower, h)))
      | inr (up, off) ↦
          rw (up, down_to_pos)
            (Around-pos p t (k * t) ((k + 1) * t) (k, refl) (k + 1, refl) lower near
              (omega (arith, near)) (omega (arith, off)))
    ]

-- For a price that is not negative and a positive tick every alignment succeeds, and the aligned
-- prices are multiples of the tick less than a tick away from the price: the grid price of a long
-- deal lies at or below it, its take-profit and its stop at or above it, and of a short deal the
-- other way round.
pub aligned_prices_surround :
    (p t : ℕ)
    → 0 < t
    → (low : ℤ) × (high : ℤ) × Around (pos p) (pos t) low high
      × (align_grid_price (pos p) (some (pos t)) long ≡ some low)
      × (align_tp_price (pos p) (some (pos t)) long ≡ some high)
      × (align_stop_price (pos p) (some (pos t)) long ≡ some high)
      × (align_grid_price (pos p) (some (pos t)) short ≡ some high)
      × (align_tp_price (pos p) (some (pos t)) short ≡ some low)
      × (align_stop_price (pos p) (some (pos t)) short ≡ some low)
unfolding align_grid_price align_tp_price align_stop_price round_down_to_tick round_up_to_tick
aligned_prices_surround p t h = (
  down_to (pos p) (pos t),
  up_to (pos p) (pos t),
  around p t h,
  rw (valid t h),
  rw (valid t h),
  rw (valid t h),
  rw (valid t h),
  rw (valid t h),
  rw (valid t h),
)
  where
    valid : (t : ℕ) → 0 < t → require_tick (some (pos t)) ≡ some (pos t)
    valid t h = unfold require_tick in ground arith
