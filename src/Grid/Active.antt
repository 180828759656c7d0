-- ===== src/Grid/Active.antt =====
-- Which levels of a grid are active.
use veles_moex.Common.{
  ℕ, zero, suc, ◌+◌, ◌-◌, ◌≤◌, ltb, ◌≡◌, refl, sym, ap, ◌∙◌, Bool, true, false, not, ◌&&◌, Option,
  none, some, List, [], ◌∷◌, map, length, arith, ◌==◌, inl, inr, Bool-cases, if◌then◌else◌,
}
use veles_moex.Grid.{
  GridLevel, GridState, LevelStatus, is_filled, is_active, by_limit, limit_or, filter, take, plan,
  unfilled, active_orders, refresh_active, refresh_from, on_fill, visit, visit_level, at,
}

length-filter : {A : Type 0} (test : A → Bool) (xs : List A) → length (filter test xs) ≤ length xs
unfolding filter
length-filter test [] = omega arith
length-filter test (x ∷ xs) = ground (arith, length-filter test xs)

pub take_all : {A : Type 0} (n : ℕ) (xs : List A) → length xs ≤ n → take n xs ≡ xs
unfolding take
take_all n [] h = refl
take_all zero (x ∷ xs) h = absurd (no_room h)
  where
    no_room : length (x ∷ xs) ≤ zero → ⊥
    no_room q = omega (arith, q)
take_all (suc n) (x ∷ xs) h = ap (λ t. x ∷ t) (take_all n xs (omega (arith, h)))

take-zero : {A : Type 0} (xs : List A) → take zero xs ≡ []
unfolding take
take-zero [] = refl
take-zero (x ∷ xs) = refl

pub take-suc : {A : Type 0} (n : ℕ) (x : A) (xs : List A) → take (suc n) (x ∷ xs) ≡ x ∷ take n xs
unfolding take
take-suc n x xs = refl

none_count :
    (F : Type 0) (i L : ℕ)
    → length (unfilled {F = F} (refresh_from i L [])) ≡ length (unfilled {F = F} [])
unfolding unfilled refresh_active
none_count F i L = refl

module _ {F : Type 0} where
  -- The levels that are active, in order.
  unfoldable pub active_levels : List (GridLevel F) → List (GridLevel F)
  active_levels ls = filter (λ l. is_active l.status) ls

  done_level :
      (l : GridLevel F) (ls : List (GridLevel F))
      → is_filled l.status ≡ true
      → (active_levels (l ∷ ls) ≡ active_levels ls) × (unfilled (l ∷ ls) ≡ unfilled ls)
  unfolding active_levels unfilled
  done_level l ls h = (rw (inactive l.status h), rw h)
    where
      inactive : (st : LevelStatus) → is_filled st ≡ true → is_active st ≡ false
      inactive st h = ground arith

  abbrev marked : Bool → GridLevel F → GridLevel F
  marked within l = record l { status = by_limit within }

  pub refresh_done :
      (l : GridLevel F) (ls : List (GridLevel F)) (i L : ℕ)
      → is_filled l.status ≡ true
      → refresh_from i L (l ∷ ls) ≡ l ∷ refresh_from i L ls
  unfolding refresh_active
  refresh_done l ls i L h = rw h

  pub refresh_todo :
      (l : GridLevel F) (ls : List (GridLevel F)) (i L : ℕ)
      → is_filled l.status ≡ false
      → refresh_from i L (l ∷ ls) ≡ marked (ltb i L) l ∷ refresh_from (i + 1) L ls
  unfolding refresh_active
  refresh_todo l ls i L h = rw h

  marked_levels :
      (within : Bool) (l : GridLevel F) (ls : List (GridLevel F))
      → (active_levels (marked within l ∷ ls)
          ≡ (if within then marked within l ∷ active_levels ls else active_levels ls))
        × (unfilled (marked within l ∷ ls) ≡ marked within l ∷ unfilled ls)
  unfolding active_levels unfilled
  marked_levels true l ls = (refl, refl)
  marked_levels false l ls = (refl, refl)

  no_levels :
      (i L n : ℕ) → active_levels (refresh_from i L []) ≡ take n (unfilled (refresh_from i L []))
  unfolding active_levels unfilled refresh_active take
  no_levels i L n = refl

  todo_level :
      (l : GridLevel F) (U : List (GridLevel F)) (i L : ℕ) (b : Bool)
      → ltb i L ≡ b
      → active_levels U ≡ take (L - (i + 1)) (unfilled U)
      → active_levels (marked b l ∷ U) ≡ take (L - i) (unfilled (marked b l ∷ U))
  todo_level l U i L true h ih =
      let one_more : L - i ≡ suc (L - (i + 1)) = ground (arith, h) in
      let (shown, kept) = marked_levels true l U in
      shown
      ∙ ap (λ t. marked true l ∷ t) ih
      ∙ sym (
          ap (λ n. take n (unfilled (marked true l ∷ U))) one_more
          ∙ ap (take (suc (L - (i + 1)))) kept
          ∙ take-suc _ _ _)
  todo_level l U i L false h ih =
      let used_up : L - i ≡ zero = ground (arith, h) in
      let used_up_after : L - (i + 1) ≡ zero = ground (arith, h) in
      let (shown, kept) = marked_levels false l U in
      shown
      ∙ ih
      ∙ ap (λ n. take n (unfilled U)) used_up_after
      ∙ take-zero (unfilled U)
      ∙ sym (ap (λ n. take n (unfilled (marked false l ∷ U))) used_up ∙ take-zero _)

  pub active_refresh_from :
      (ls : List (GridLevel F)) (i L : ℕ)
      → active_levels (refresh_from i L ls) ≡ take (L - i) (unfilled (refresh_from i L ls))
  active_refresh_from [] i L = no_levels i L (L - i)
  active_refresh_from (l ∷ ls) i L = elim (Bool-cases (is_filled l.status)) [
    | inl done ↦
        let (quiet, same) = done_level l (refresh_from i L ls) done in
        rw (refresh_done l ls i L done, quiet, same) (active_refresh_from ls i L)
    | inr todo ↦ rw (refresh_todo l ls i L todo) (
        todo_level l (refresh_from (i + 1) L ls) i L (ltb i L) refl
          (active_refresh_from ls (i + 1) L))
  ]

  todo_kept :
      (l : GridLevel F) (ls : List (GridLevel F))
      → is_filled l.status ≡ false
      → unfilled (l ∷ ls) ≡ l ∷ unfilled ls
  unfolding unfilled
  todo_kept l ls h = rw h

  -- Marking the levels keeps the number of those that are not filled.
  pub unfilled_count :
      (ls : List (GridLevel F)) (i L : ℕ)
      → length (unfilled (refresh_from i L ls)) ≡ length (unfilled ls)
  unfilled_count [] i L = none_count F i L
  unfilled_count (l ∷ ls) i L = elim (Bool-cases (is_filled l.status)) [
    | inl done ↦
        rw
          (
            refresh_done l ls i L done,
            (done_level l (refresh_from i L ls) done).1,
            (done_level l ls done).1,
          )
          (unfilled_count ls i L)
    | inr todo ↦
        rw
          (
            refresh_todo l ls i L todo,
            (marked_levels (ltb i L) l (refresh_from (i + 1) L ls)).1,
            todo_kept l ls todo,
          )
          (ap suc (unfilled_count ls (i + 1) L))
  ]

  pub unfilled_bound : (ls : List (GridLevel F)) → length (unfilled ls) ≤ length ls
  unfolding unfilled
  unfilled_bound ls = length-filter _ ls

  shown_by :
      (lim : Option ℕ) (ls : List (GridLevel F))
      → let R = refresh_from 0 (limit_or lim (length (unfilled ls))) ls in
        active_levels R ≡ take (limit_or lim (length R)) (unfilled R)
  shown_by (some k) ls =
      active_refresh_from ls 0 k ∙ ap (λ n. take n (unfilled (refresh_from 0 k ls))) (omega arith)
  shown_by none ls =
      let L = length (unfilled ls) in
      let R = refresh_from 0 L ls in
      active_refresh_from ls 0 L
      ∙ take_all (L - 0) (unfilled R) (omega (arith, unfilled_count ls 0 L))
      ∙ sym (take_all (length R) (unfilled R) (unfilled_bound R))

  -- The levels marked active are the ones that `active_orders` gives out.
  pub record ShowsActive (s : GridState F) : Type 0 where
    pub shown : map plan (active_levels s.levels) ≡ active_orders s

  pub refreshed : (s : GridState F) → ShowsActive (refresh_active s)
  unfolding refresh_active active_orders
  refreshed s = record { shown = ap (map plan) (shown_by s.active_limit s.levels) }

  visited_level :
      (o : Option (GridLevel F)) (place index : ℕ) (s : GridState F)
      → ShowsActive s
      → ShowsActive (visit_level o place index s)
  unfolding on_fill
  visited_level none place index s h = h
  visited_level (some l) place index s h =
      elim (Bool-cases ((l.index == index) && not (is_filled l.status))) [
        | inl hit ↦ rw hit (refreshed _)
        | inr miss ↦ rw miss h
      ]

  visited :
      (rest place index : ℕ) (s : GridState F)
      → ShowsActive s
      → ShowsActive (visit rest place index s)
  unfolding on_fill
  visited zero place index s h = h
  visited (suc rest) place index s h =
      visited rest (place + 1) index _ (visited_level (at place s.levels) place index s h)

  -- A fill keeps the marks of the levels right: if the levels marked active were the orders that
  -- the grid gives out as active, so they are afterwards, whichever level is filled.
  pub on_fill-ShowsActive :
      (s : GridState F) (index : ℕ) → ShowsActive s → ShowsActive (on_fill s index)
  unfolding on_fill
  on_fill-ShowsActive s index h = visited (length s.levels) 0 index s h
