-- ===== src/Deals/Store/Fresh.antt =====
-- The ids of the store of deals.
use veles_moex.Common.{
  ℕ, ◌+◌, ◌<◌, ◌≡◌, refl, str, str_eq, eq_iff, eq_refl, false, none, some, arith, inl, inr,
  Bool-cases,
}
use veles_moex.Common.Texts.RoundTrip.{int-str}
use veles_moex.Dict
use veles_moex.Dict.{get-put}
use veles_moex.Deals.Store.{Deal, InMemoryDealStore, save_deal, get_deal}

str-injective : (j k : ℕ) → str j ≡ str k → j ≡ k
str-injective j k e = cc (int-str j, int-str k)

other_key : (j k : ℕ) → (j ≡ k → ⊥) → str_eq (str j) (str k) ≡ false
other_key j k h = elim (Bool-cases (str_eq (str j) (str k))) [
  | inl same ↦ absurd (h (str-injective j k ((eq_iff (str j) (str k)).0 same)))
  | inr other ↦ other
]

module _ {F : Type 0} where
  -- Ids above the counter are free.
  pub record IsNumbered (s : InMemoryDealStore F) : Type 0 where
    pub free : (k : ℕ) → s.seq < k → get_deal s k ≡ none

  -- Saving a deal that has no id gives it the next one, which no deal had; it is found under that
  -- id, every other deal is found as before, and the ids above the new counter are free again.
  pub save_new_deal :
      (d : Deal F) (now : ℕ) (s : InMemoryDealStore F)
      → IsNumbered s
      → d.id ≡ none
      → let (saved, after) = save_deal d now s in
        (get_deal s (s.seq + 1) ≡ none)
        × (saved.id ≡ some (s.seq + 1))
        × (get_deal after (s.seq + 1) ≡ some saved)
        × ((k : ℕ) → (s.seq + 1 ≡ k → ⊥) → get_deal after k ≡ get_deal s k)
        × IsNumbered after
  unfolding save_deal get_deal
  save_new_deal d now s h new = rw new (
    h.free (s.seq + 1) (omega arith),
    refl,
    here (s.seq + 1) _,
    (λ k apart. rw (get-put, other_key (s.seq + 1) k apart) refl),
    record {
      free = λ k above.
          rw (get-put, other_key (s.seq + 1) k (below k above)) (h.free k (omega (arith, above)));
    },
  )
    where
      here : (k : ℕ) (d' : Deal F) → Dict.get (Dict.put s.deals (str k) d') (str k) ≡ some d'
      here k d' = simp (get-put, eq_refl)

      below : (k : ℕ) → s.seq + 1 < k → s.seq + 1 ≡ k → ⊥
      below k above e = omega (arith, above, e)
