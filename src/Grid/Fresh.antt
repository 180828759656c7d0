-- ===== src/Grid/Fresh.antt =====
-- A grid that `build` makes: its levels are numbered in order and none is filled, in
-- backend/app/strategies/dca_grid.py.
use veles_moex.Common.{
  ℕ, zero, suc, ◌+◌, ◌-◌, ltb, ◌≡◌, ◌≢◌, ◌⊎◌, refl, sym, ap, ◌∙◌, subst, Bool, true, false, Option,
  none, some, List, [], ◌∷◌, map, length, arith, inl, inr, if◌then◌else◌,
}
use mathlib.Core.Option.{some-injective}
use veles_moex.Decimal.{ℤ, Context}
use veles_moex.Domain.{OrderSide, Direction}
use veles_moex.Strategies.{Floats, Powers, TradingMode, DcaGridConfig, CustomLevel}
use veles_moex.Grid.{
  GridLevel, GridState, is_filled, by_limit, limit_or, filter, take, plan, unfilled, active_orders,
  refresh_from,
}
use veles_moex.Grid.Active.{
  ShowsActive, active_levels, active_refresh_from, take_all, unfilled_count, unfilled_bound,
  refresh_todo,
}
use veles_moex.Grid.Build.{
  and_then, make_level, make_levels, make_custom_levels, open_to_market, mark_by_index,
  assign_active, build_simple, build_custom, build_signal, build, build_by, validate_custom,
}

pub and_then-some :
    {A B : Type 0} (o : Option A) (f : A → Option B) (b : B)
    → and_then o f ≡ some b
    → (a : A) × (o ≡ some a) × (f a ≡ some b)
unfolding and_then
and_then-some none f b h = absurd (cc h)
and_then-some (some a) f b h = (a, refl, h)

pub passed_guard :
    {A : Type 0} (b : Bool) (o : Option A) (a : A) → (if b then o else none) ≡ some a → o ≡ some a
passed_guard true o a h = h
passed_guard false o a h = absurd (cc h)

pub branches :
    {A : Type 0} (b : Bool) (x y : Option A) (a : A)
    → (if b then x else y) ≡ some a
    → ((b ≡ true) × (x ≡ some a)) ⊎ ((b ≡ false) × (y ≡ some a))
branches true x y a h = inl (refl, h)
branches false x y a h = inr (refl, h)

module _ {F : Type 0} where
  -- Levels that are numbered from a place on, none of them filled.
  pub data Counted : ℕ → List (GridLevel F) → Type 0 where
    nil : {i : ℕ} → Counted i []
    cons :
        {i : ℕ} {l : GridLevel F} {ls : List (GridLevel F)}
        → l.index ≡ i
        → is_filled l.status ≡ false
        → Counted (i + 1) ls
        → Counted i (l ∷ ls)

  marked-refresh :
      (ls : List (GridLevel F)) (i L : ℕ) → Counted i ls → mark_by_index L ls ≡ refresh_from i L ls
  unfolding mark_by_index refresh_from
  marked-refresh [] i L h = refl
  marked-refresh (l ∷ ls) i L (cons at_i fresh rest) =
      ap (λ (j : ℕ). record l { status = by_limit (ltb j L) } ∷ mark_by_index L ls) at_i
      ∙ ap (λ r. record l { status = by_limit (ltb i L) } ∷ r) (marked-refresh ls (i + 1) L rest)
      ∙ sym (refresh_todo l ls i L fresh)

  shown_fresh :
      (lim : Option ℕ) (ls : List (GridLevel F))
      → let R = refresh_from 0 (limit_or lim (length ls)) ls in
        active_levels R ≡ take (limit_or lim (length R)) (unfilled R)
  shown_fresh (some k) ls =
      active_refresh_from ls 0 k ∙ ap (λ n. take n (unfilled (refresh_from 0 k ls))) (omega arith)
  shown_fresh none ls =
      let L = length ls in
      let R = refresh_from 0 L ls in
      active_refresh_from ls 0 L
      ∙ take_all (L - 0) (unfilled R) (omega (arith, unfilled_count ls 0 L, unfilled_bound ls))
      ∙ sym (take_all (length R) (unfilled R) (unfilled_bound R))

  assigned : (s : GridState F) → Counted 0 s.levels → ShowsActive (assign_active s)
  unfolding assign_active active_orders
  assigned s h = record {
    shown =
        rw (marked-refresh s.levels 0 (limit_or s.active_limit (length s.levels)) h)
          (ap (map plan) (shown_fresh s.active_limit s.levels));
  }

  opened-Counted :
      (zero_offset : Bool) (ls : List (GridLevel F))
      → Counted 0 ls
      → Counted 0 (open_to_market zero_offset ls)
  opened-Counted b [] h = h
  opened-Counted false (l ∷ ls) h = h
  opened-Counted true (l ∷ ls) (cons at_i fresh rest) = cons at_i refl rest

module _ {F : Type 0} ⦃ctx : Context⦄ ⦃fl : Floats F⦄ where
  pub made_level :
      (i : ℕ) (side : OrderSide) (price nominal ref : ℤ) (l : GridLevel F)
      → make_level i side price nominal ref ≡ some l
      → (l.index ≡ i) × (is_filled l.status ≡ false) × (l.nominal ≡ nominal)
  unfolding make_level
  made_level i side price nominal ref l h =
      let (offset, at_offset, then_quantity) = and_then-some _ _ l h in
      let (quantity, at_quantity, same) = and_then-some _ _ l then_quantity in
      let it = sym (some-injective _ _ same) in
      (ap (λ r. r.index) it, ap (λ r. is_filled r.status) it, ap (λ r. r.nominal) it)

  made_levels :
      (nominal_at : ℕ → ℤ) (i : ℕ) (side : OrderSide) (ref : ℤ) (ps : List ℤ)
      (ls : List (GridLevel F))
      → make_levels nominal_at i side ref ps ≡ some ls
      → Counted i ls
  unfolding make_levels
  made_levels nominal_at i side ref [] [] h = nil
  made_levels nominal_at i side ref [] (l ∷ ls) h = absurd (cc h)
  made_levels nominal_at i side ref (p ∷ ps) ls' h =
      let (l, at_l, then_rest) = and_then-some _ _ ls' h in
      let (ls, at_ls, same) = and_then-some _ _ ls' then_rest in
      let (at_i, fresh, _) = made_level i side p (nominal_at i) ref l at_l in
      subst (λ t. Counted i t) (some-injective _ _ same)
        (cons at_i fresh (made_levels nominal_at (i + 1) side ref ps ls at_ls))

  made_custom_levels :
      (base : ℤ) (i : ℕ) (side : OrderSide) (ref : ℤ) (ps : List ℤ) (cs : List (CustomLevel F))
      (ls : List (GridLevel F))
      → make_custom_levels base i side ref ps cs ≡ some ls
      → Counted i ls
  unfolding make_custom_levels
  made_custom_levels base i side ref [] cs ls h =
      subst (λ t. Counted i t) (some-injective _ _ h) nil
  made_custom_levels base i side ref (p ∷ ps) [] ls h =
      subst (λ t. Counted i t) (some-injective _ _ h) nil
  made_custom_levels base i side ref (p ∷ ps) (c ∷ cs) ls' h =
      let (l, at_l, then_rest) = and_then-some _ _ ls' h in
      let (ls, at_ls, same) = and_then-some _ _ ls' then_rest in
      let (at_i, fresh, _) = made_level i side p _ ref l at_l in
      subst (λ t. Counted i t) (some-injective _ _ same)
        (cons at_i fresh (made_custom_levels base (i + 1) side ref ps cs ls at_ls))

module _ {F G : Type 0} ⦃ctx : Context⦄ ⦃fl : Floats F⦄ where
  signal_shown :
      (c : DcaGridConfig F G) (ref : ℤ) (d : Direction) (base : ℤ) (s : GridState F)
      → c.active_limit ≢ some 0
      → build_signal c ref d base ≡ some s
      → ShowsActive s
  unfolding build_signal active_levels active_orders filter unfilled
  signal_shown c ref d base s room h =
      let (quantity, at_quantity, same) = and_then-some _ _ s h in
      subst ShowsActive (some-injective _ _ same)
        (record { shown = one_level _ c.active_limit room })
    where
      one_level :
          (l : GridLevel F) (lim : Option ℕ)
          → lim ≢ some 0
          → plan l ∷ [] ≡ map plan (take (limit_or lim 1) (l ∷ []))
      one_level l none room = refl
      one_level l (some zero) room = absurd (room refl)
      one_level l (some (suc k)) room = refl

  custom_shown :
      (c : DcaGridConfig F G) (ref : ℤ) (d : Direction) (base : ℤ) (s : GridState F)
      → build_custom c ref d base ≡ some s
      → ShowsActive s
  unfolding build_custom
  custom_shown c ref d base s h =
      let (levels, at_levels, same) =
        and_then-some _ _ s (passed_guard (validate_custom c.custom_levels) _ s h) in
      subst ShowsActive (some-injective _ _ same)
        (assigned _ (made_custom_levels _ _ _ _ _ _ levels at_levels))

module _ {F G : Type 0} ⦃ctx : Context⦄ ⦃fl : Floats F⦄ ⦃powers : Powers⦄ where
  simple_shown :
      (c : DcaGridConfig F G) (ref : ℤ) (d : Direction) (base : ℤ) (s : GridState F)
      → build_simple c ref d base ≡ some s
      → ShowsActive s
  unfolding build_simple
  simple_shown c ref d base s h =
      let (levels, at_levels, same) = and_then-some _ _ s h in
      subst ShowsActive (some-injective _ _ same)
        (assigned _ (opened-Counted _ levels (made_levels _ _ _ _ _ levels at_levels)))

  built_by :
      (m : TradingMode) (c : DcaGridConfig F G) (ref : ℤ) (d : Direction) (base : ℤ)
      (s : GridState F)
      → c.active_limit ≢ some 0
      → build_by m c ref d base ≡ some s
      → ShowsActive s
  built_by TradingMode.simple c ref d base s room h = simple_shown c ref d base s h
  built_by TradingMode.custom c ref d base s room h = custom_shown c ref d base s h
  built_by TradingMode.signal c ref d base s room h = signal_shown c ref d base s room h

  pub build-ShowsActive :
      (c : DcaGridConfig F G) (ref : ℤ) (d : Direction) (base : ℤ) (s : GridState F)
      → c.active_limit ≢ some 0
      → build c ref d base ≡ some s
      → ShowsActive s
  unfolding build
  build-ShowsActive c ref d base s room h = built_by c.mode c ref d base s room h
