-- ===== src/Grid/Filling.antt =====
-- A grid as an account of its levels, each a number that is filled or not: what a fill does to it,
-- `on_fill` of backend/app/strategies/dca_grid.py.
use veles_moex.Common.{
  ℕ, zero, suc, ◌+◌, ltb, ◌==◌, ◌≡◌, refl, sym, ap, ◌∙◌, Bool, true, false, not, ◌&&◌, ◌||◌, Option,
  none, some, List, [], ◌∷◌, map, length, arith, inl, inr, Bool-cases,
}
use mathlib.Core.Option.{some-injective}
use veles_moex.Grid.{
  GridLevel, GridState, LevelStatus, is_filled, by_limit, at, put_at, refresh_active, refresh_from,
  on_fill, visit, visit_level,
}
use veles_moex.Grid.Active.{refresh_done, refresh_todo}

-- The number of a level, and whether it is filled.
pub record Entry : Type 0 where
  pub number : ℕ
  pub is_done : Bool

-- The specification of a fill: every entry of the number is done, the others stay.
unfoldable pub fill_entry : ℕ → Entry → Entry
fill_entry i e = record { number = e.number; is_done = e.is_done || (e.number == i) }

mark_at : ℕ → ℕ → List Entry → List Entry
mark_at i n [] = []
mark_at i zero (e ∷ es) = fill_entry i e ∷ es
mark_at i (suc n) (e ∷ es) = e ∷ mark_at i n es

marks : ℕ → ℕ → ℕ → List Entry → List Entry
marks i zero place es = es
marks i (suc rest) place es = marks i rest (place + 1) (mark_at i place es)

marks-cons :
    (i rest place : ℕ) (e : Entry) (es : List Entry)
    → marks i rest (suc place) (e ∷ es) ≡ e ∷ marks i rest place es
unfolding marks mark_at
marks-cons i zero place e es = refl
marks-cons i (suc rest) place e es =
    let next : suc place + 1 ≡ suc (place + 1) = omega arith in
    ap (λ n. marks i rest n (e ∷ mark_at i place es)) next
    ∙ marks-cons i rest (place + 1) e (mark_at i place es)

marks-all : (i : ℕ) (es : List Entry) → marks i (length es) 0 es ≡ map (fill_entry i) es
unfolding marks mark_at
marks-all i [] = refl
marks-all i (e ∷ es) =
    marks-cons i (length es) 0 (fill_entry i e) es ∙ ap (λ t. fill_entry i e ∷ t) (marks-all i es)

spared : (a b : Bool) → b && not a ≡ false → a || b ≡ a
spared true b h = refl
spared false true h = absurd (cc h)
spared false false h = refl

hit_done : (a b : Bool) → b && not a ≡ true → true ≡ a || b
hit_done true b h = refl
hit_done false true h = refl
hit_done false false h = absurd (cc h)

module _ {F : Type 0} where
  abbrev pub entry_of : GridLevel F → Entry
  entry_of l = record { number = l.index; is_done = is_filled l.status }

  -- The account of the levels.
  abbrev pub entries : List (GridLevel F) → List Entry
  entries ls = map entry_of ls

  entries-refresh_from :
      (ls : List (GridLevel F)) (i L : ℕ) → entries (refresh_from i L ls) ≡ entries ls
  unfolding refresh_from
  entries-refresh_from [] i L = refl
  entries-refresh_from (l ∷ ls) i L = elim (Bool-cases (is_filled l.status)) [
    | inl done ↦
        ap entries (refresh_done l ls i L done)
        ∙ ap (λ t. entry_of l ∷ t) (entries-refresh_from ls i L)
    | inr todo ↦
        ap entries (refresh_todo l ls i L todo)
        ∙ ap (λ b. record { number = l.index; is_done = b } ∷ entries (refresh_from (i + 1) L ls))
            (by_limit_open (ltb i L) ∙ sym todo)
        ∙ ap (λ t. entry_of l ∷ t) (entries-refresh_from ls (i + 1) L)
  ]
    where
      by_limit_open : (b : Bool) → is_filled (by_limit b) ≡ false
      by_limit_open true = refl
      by_limit_open false = refl

  entries-refresh_active : (s : GridState F) → entries (refresh_active s).levels ≡ entries s.levels
  unfolding refresh_active
  entries-refresh_active s = entries-refresh_from s.levels 0 _

  nothing_there :
      (i n : ℕ) (ls : List (GridLevel F)) → at n ls ≡ none → mark_at i n (entries ls) ≡ entries ls
  unfolding at mark_at
  nothing_there i n [] h = refl
  nothing_there i zero (l ∷ ls) h = absurd (cc h)
  nothing_there i (suc n) (l ∷ ls) h = ap (λ t. entry_of l ∷ t) (nothing_there i n ls h)

  put_there :
      (i n : ℕ) (l l' : GridLevel F) (ls : List (GridLevel F))
      → at n ls ≡ some l
      → entry_of l' ≡ fill_entry i (entry_of l)
      → entries (put_at n l' ls) ≡ mark_at i n (entries ls)
  unfolding at put_at mark_at
  put_there i n l l' [] h e = absurd (cc h)
  put_there i zero l l' (k ∷ ls) h e =
      ap (λ t. t ∷ entries ls)
        (e ∙ ap (λ k'. fill_entry i (entry_of k')) (sym (some-injective _ _ h)))
  put_there i (suc n) l l' (k ∷ ls) h e = ap (λ t. entry_of k ∷ t) (put_there i n l l' ls h e)

  same_there :
      (i n : ℕ) (l : GridLevel F) (ls : List (GridLevel F))
      → at n ls ≡ some l
      → fill_entry i (entry_of l) ≡ entry_of l
      → mark_at i n (entries ls) ≡ entries ls
  unfolding at mark_at
  same_there i n l [] h e = refl
  same_there i zero l (k ∷ ls) h e = ap (λ t. t ∷ entries ls) (rw (some-injective _ _ h) e)
  same_there i (suc n) l (k ∷ ls) h e = ap (λ t. entry_of k ∷ t) (same_there i n l ls h e)

  -- One visit of the loop of `on_fill` marks the entry at its place.
  visited_entries :
      (o : Option (GridLevel F)) (place i : ℕ) (s : GridState F)
      → at place s.levels ≡ o
      → entries (visit_level o place i s).levels ≡ mark_at i place (entries s.levels)
  unfolding visit_level fill_entry
  visited_entries none place i s e = sym (nothing_there i place s.levels e)
  visited_entries (some l) place i s e =
      elim (Bool-cases ((l.index == i) && not (is_filled l.status))) [
        | inl hit ↦ rw hit (
            entries-refresh_active _
            ∙ put_there i place l
                (record l { status = LevelStatus.filled; filled_quantity = l.quantity }) s.levels e
                (ap (λ b. record { number = l.index; is_done = b }) (hit_done _ _ hit)))
        | inr miss ↦ rw miss (
            sym (
              same_there i place l s.levels e
                (ap (λ b. record { number = l.index; is_done = b }) (spared _ _ miss))))
      ]

  all_visited :
      (rest place i : ℕ) (s : GridState F)
      → entries (visit rest place i s).levels ≡ marks i rest place (entries s.levels)
  unfolding visit marks
  all_visited zero place i s = refl
  all_visited (suc rest) place i s =
      all_visited rest (place + 1) i _
      ∙ ap (marks i rest (place + 1)) (visited_entries (at place s.levels) place i s refl)

  length-entries : (ls : List (GridLevel F)) → length (entries ls) ≡ length ls
  length-entries [] = refl
  length-entries (l ∷ ls) = ap suc (length-entries ls)

  -- A fill of a grid does what the account of its levels says: seen as numbers that are filled or not,
  -- the levels of the number become filled, wherever and however often it stands, and no other level
  -- changes, is added or is lost.
  pub on_fill_refines :
      (s : GridState F) (i : ℕ)
      → entries (on_fill s i).levels ≡ map (fill_entry i) (entries s.levels)
  unfolding on_fill
  on_fill_refines s i =
      all_visited (length s.levels) 0 i s
      ∙ ap (λ n. marks i n 0 (entries s.levels)) (sym (length-entries s.levels))
      ∙ marks-all i (entries s.levels)
