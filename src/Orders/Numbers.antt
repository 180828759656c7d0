-- ===== src/Orders/Numbers.antt =====
-- The numbers in order ids: `f"order-{seq}"`, and `_max_order_seq`, which reads them back.
use veles_moex.Common.{
  ℕ, ◌≤◌, ◌≡◌, String, Option, none, some, List, [], ◌∷◌, arith, after_last_dash, ◌+++◌, truthy,
  true, eq_iff, str_eq, Bool-cases, inl, inr,
}
use veles_moex.Common.Texts.RoundTrip.{int-str, after_last_dash-str}
use veles_moex.Domain.{InternalOrder}
use veles_moex.Orders.State.{order_name}
use veles_moex.Orders.Snapshot.{seq_of, larger, max_seq}
use veles_moex.Dict.{AllOf}
use native.Mathlib.Nat.{le_trans}
use Prim.Native.Char.{Char}

-- The number that an order id is built from is the one that is read from it.
pub seq_of-order_name : (n : ℕ) → seq_of (order_name n) ≡ some n
unfolding seq_of order_name ◌+++◌ after_last_dash
seq_of-order_name n = rw (after_last_dash-str n, after_last_dash) (int-str n)

pub order_name-injective : (j k : ℕ) → order_name j ≡ order_name k → j ≡ k
order_name-injective j k e = cc (seq_of-order_name j, seq_of-order_name k)

text_ne_empty : {c : Char} {s : String} → String.◌∷◌ c s ≡ "" → ⊥
text_ne_empty e = cc

order_name-ne-empty : (n : ℕ) → order_name n ≡ "" → ⊥
unfolding order_name ◌+++◌
order_name-ne-empty n e = text_ne_empty e

-- No order id is the empty text.
pub truthy-order_name : (n : ℕ) → truthy (order_name n) ≡ true
truthy-order_name n = elim (Bool-cases (str_eq (order_name n) "")) [
  | inl same ↦ absurd (order_name-ne-empty n ((eq_iff (order_name n) "").0 same))
  | inr other ↦ rw other
]

larger_bound : (n : ℕ) (o : Option ℕ) → (n ≤ larger n o) × ((k : ℕ) → o ≡ some k → k ≤ larger n o)
unfolding larger
larger_bound n none = (omega arith, λ k e. cc)
larger_bound n (some j) = (ground arith, λ k e. ground arith)

max_seq_grows : (n : ℕ) (os : List InternalOrder) → n ≤ max_seq n os
unfolding max_seq
max_seq_grows n [] = omega arith
max_seq_grows n (o ∷ os) =
    let m = larger n (seq_of o.order_id) in
    le_trans (larger_bound n (seq_of o.order_id)).0 (max_seq_grows m os)

-- No order carries a number above the counter that a restart computes.
pub max_seq_bound :
    (n : ℕ) (os : List InternalOrder)
    → AllOf (λ o. (k : ℕ) → seq_of o.order_id ≡ some k → k ≤ max_seq n os) os
unfolding max_seq
max_seq_bound n [] = tt
max_seq_bound n (o ∷ os) =
    let m = larger n (seq_of o.order_id) in
    (
      λ k e. le_trans ((larger_bound n (seq_of o.order_id)).1 k e) (max_seq_grows m os),
      max_seq_bound m os,
    )
