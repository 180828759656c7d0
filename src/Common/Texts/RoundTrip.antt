-- ===== src/Common/Texts/RoundTrip.antt =====
-- Reading a printed number back, and the number at the end of an identifier.
use Prim.Native.Nat.{ℕ, zero, suc, ◌+◌, ◌*◌, ◌/◌, ◌%◌, ◌<◌}
use Prim.Native.Char.{code}
use Prim.Native.String.{String}
use mathlib.Core.Path.{◌≡◌, refl, ◌∙◌, ap}
use mathlib.Core.Logic.{◌⊎◌, inl, inr}
use mathlib.Core.Option.{none, some}
use native.Mathlib.Omega.{arith}
use veles_moex.Common.Texts.{digit, digits, scan, read, before, inside, str, int, after_last_dash}

code-digit : (d : ℕ) → d < 10 → code (digit d) ≡ 48 + d
code-digit zero h = refl
code-digit (suc zero) h = refl
code-digit (suc (suc zero)) h = refl
code-digit (suc (suc (suc zero))) h = refl
code-digit (suc (suc (suc (suc zero)))) h = refl
code-digit (suc (suc (suc (suc (suc zero))))) h = refl
code-digit (suc (suc (suc (suc (suc (suc zero)))))) h = refl
code-digit (suc (suc (suc (suc (suc (suc (suc zero))))))) h = refl
code-digit (suc (suc (suc (suc (suc (suc (suc (suc zero)))))))) h = refl
code-digit (suc (suc (suc (suc (suc (suc (suc (suc (suc zero))))))))) h = refl
code-digit (suc (suc (suc (suc (suc (suc (suc (suc (suc (suc n)))))))))) h = absurd (omega arith)

scan_first : (acc d : ℕ) → d < 10 → scan before acc (digit d) ≡ some (inside, d)
unfolding scan
scan_first acc d h = ground (arith, code-digit d h)

scan_next : (acc d : ℕ) → d < 10 → scan inside acc (digit d) ≡ some (inside, acc * 10 + d)
unfolding scan
scan_next acc d h = ground (arith, code-digit d h)

read_first :
    (acc d : ℕ) (rest : String)
    → d < 10
    → read before acc (String.◌∷◌ (digit d) rest) ≡ read inside d rest
unfolding read
read_first acc d rest h = rw (scan_first acc d h, read)

read_next :
    (acc d : ℕ) (rest : String)
    → d < 10
    → read inside acc (String.◌∷◌ (digit d) rest) ≡ read inside (acc * 10 + d) rest
unfolding read
read_next acc d rest h = rw (scan_next acc d h, read)

tenth : (n : ℕ) → (n / 10 ≡ 0) ⊎ ((m : ℕ) × (n / 10 ≡ suc m))
tenth n = go (n / 10) refl
  where
    go : (k : ℕ) → n / 10 ≡ k → (n / 10 ≡ 0) ⊎ ((m : ℕ) × (n / 10 ≡ suc m))
    go zero e = inl e
    go (suc m) e = inr (m, e)

digits_last :
    (fuel n : ℕ) (rest : String)
    → n / 10 ≡ 0
    → digits (suc fuel) n rest ≡ String.◌∷◌ (digit (n % 10)) rest
unfolding digits
digits_last fuel n rest e = rw (e, digits)

digits_more :
    (fuel n m : ℕ) (rest : String)
    → n / 10 ≡ suc m
    → digits (suc fuel) n rest ≡ digits fuel (suc m) (String.◌∷◌ (digit (n % 10)) rest)
unfolding digits
digits_more fuel n m rest e = rw (e, digits)

read-digits :
    (fuel n acc : ℕ) (rest : String)
    → n < fuel
    → read before acc (digits fuel n rest) ≡ read inside n rest
read-digits zero n acc rest h = absurd (omega arith)
read-digits (suc fuel) n acc rest h = elim (tenth n) [
  | inl small ↦
      rw (digits_last fuel n rest small)
        (read_first acc (n % 10) rest (omega arith) ∙ ap (λ k. read inside k rest) (omega arith))
  | inr (m, e) ↦ rw (digits_more fuel n m rest e) (
      read-digits fuel (suc m) acc (String.◌∷◌ (digit (n % 10)) rest) (omega arith)
      ∙ read_next (suc m) (n % 10) rest (omega arith)
      ∙ ap (λ k. read inside k rest) (omega arith))
]

-- A printed number is read back.
pub int-str : (n : ℕ) → int (str n) ≡ some n
unfolding int str
int-str n = read-digits (suc n) n 0 "" (omega arith) ∙ refl_read n
  where
    refl_read : (n : ℕ) → read inside n "" ≡ some n
    refl_read n = refl

no_dash :
    (d : ℕ) (rest : String)
    → d < 10
    → after_last_dash rest ≡ none
    → after_last_dash (String.◌∷◌ (digit d) rest) ≡ none
unfolding after_last_dash
no_dash d rest h e = ground (arith, code-digit d h)

after_last_dash-digits :
    (fuel n : ℕ) (rest : String)
    → after_last_dash rest ≡ none
    → after_last_dash (digits fuel n rest) ≡ none
unfolding digits
after_last_dash-digits zero n rest h = h
after_last_dash-digits (suc fuel) n rest h =
    let first = no_dash (n % 10) rest (omega arith) h in
    elim (tenth n) [
      | inl small ↦ rw (digits_last fuel n rest small) first
      | inr (m, e) ↦
          rw (digits_more fuel n m rest e)
            (after_last_dash-digits fuel (suc m) (String.◌∷◌ (digit (n % 10)) rest) first)
    ]

-- A printed number has no dash.
pub after_last_dash-str : (n : ℕ) → after_last_dash (str n) ≡ none
unfolding str after_last_dash
after_last_dash-str n = after_last_dash-digits (suc n) n "" refl
