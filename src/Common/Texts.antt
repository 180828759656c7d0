-- ===== src/Common/Texts.antt =====
-- Python's `str(n)`, `int(text)`, `text.strip()` and `text.rsplit("-", 1)[1]`, over ASCII
-- characters.
pub mod RoundTrip
use Prim.Native.Nat.{ℕ, zero, suc, ◌+◌, ◌-◌, ◌*◌, ◌/◌, ◌%◌}
use Prim.Native.Char.{Char, code}
use Prim.Native.String.{String}
use mathlib.Core.Bool.{Bool, true, false, ◌&&◌, ◌||◌}
use mathlib.Core.Option.{Option, none, some}
use mathlib.Core.Path.{◌≡◌, refl}
use veles_moex.Common.Tests.{leb, ◌==◌, if◌then◌else◌}

-- One text behind another.
infixr 65 ◌+++◌
unfoldable pub ◌+++◌ : String → String → String
String.[] +++ t = t
(String.◌∷◌ c s) +++ t = String.◌∷◌ c (s +++ t)

abbrev digit : ℕ → Char
digit zero = "0"
digit (suc zero) = "1"
digit (suc (suc zero)) = "2"
digit (suc (suc (suc zero))) = "3"
digit (suc (suc (suc (suc zero)))) = "4"
digit (suc (suc (suc (suc (suc zero))))) = "5"
digit (suc (suc (suc (suc (suc (suc zero)))))) = "6"
digit (suc (suc (suc (suc (suc (suc (suc zero))))))) = "7"
digit (suc (suc (suc (suc (suc (suc (suc (suc zero)))))))) = "8"
digit _ = "9"

-- The digits of `n`, put before `rest`.
digits : ℕ → ℕ → String → String
digits zero n rest = rest
digits (suc fuel) n rest = elim (n / 10) [
  | zero ↦ String.◌∷◌ (digit (n % 10)) rest
  | suc m ↦ digits fuel (suc m) (String.◌∷◌ (digit (n % 10)) rest)
]

unfoldable pub str : ℕ → String
unfolding digits
str n = digits (suc n) n ""

is_digit : Char → Bool
is_digit c = leb 48 (code c) && leb (code c) 57

is_space : Char → Bool
is_space c = (leb 9 (code c) && leb (code c) 13) || (leb 28 (code c) && leb (code c) 32)

-- Where `int(text)` stands in a text with no minus sign: before the number, before a digit that
-- must come, in the digits, in the spaces behind them.
pub data Phase : Type 0 where
  before awaited inside behind : Phase

-- One character; `none` is Python's `ValueError`.
scan : Phase → ℕ → Char → Option (Phase × ℕ)
unfolding is_digit is_space
scan before n c =
    if is_digit c
    then some (inside, code c - 48)
    else if is_space c
    then some (before, n)
    else if code c == b'+'
    then some (awaited, n)
    else none
scan awaited n c = if is_digit c then some (inside, n * 10 + (code c - 48)) else none
scan inside n c =
    if is_digit c
    then some (inside, n * 10 + (code c - 48))
    else if code c == b'_'
    then some (awaited, n)
    else if is_space c
    then some (behind, n)
    else none
scan behind n c = if is_space c then some (behind, n) else none

read : Phase → ℕ → String → Option ℕ
unfolding scan
read before n String.[] = none
read awaited n String.[] = none
read inside n String.[] = some n
read behind n String.[] = some n
read p n (String.◌∷◌ c s) = elim (scan p n c) [ none ↦ none | some (q, m) ↦ read q m s ]

-- `int(text)`, for a text with no minus sign.
unfoldable pub int : String → Option ℕ
unfolding read
int text = read before 0 text

-- `text.rsplit("-", 1)[1]`; `none` is Python's `IndexError`.
unfoldable pub after_last_dash : String → Option String
after_last_dash String.[] = none
after_last_dash (String.◌∷◌ c s) = elim (after_last_dash s) [
  | some t ↦ some t
  | none ↦ if code c == b'-' then some s else none
]

lstrip : String → String
unfolding is_space
lstrip String.[] = ""
lstrip (String.◌∷◌ c s) = let rest = lstrip s in if is_space c then rest else String.◌∷◌ c s

-- A space goes if nothing but spaces stands behind it.
keep_before : Char → String → String
unfolding is_space
keep_before c String.[] = if is_space c then "" else String.◌∷◌ c ""
keep_before c (String.◌∷◌ d s) = String.◌∷◌ c (String.◌∷◌ d s)

rstrip : String → String
unfolding keep_before
rstrip String.[] = ""
rstrip (String.◌∷◌ c s) = keep_before c (rstrip s)

-- `text.strip()`
unfoldable pub strip : String → String
unfolding lstrip rstrip
strip text = rstrip (lstrip text)

strip_test : strip "  a b " ≡ "a b"
unfolding strip
strip_test = refl

number_test : int "42" ≡ some 42
unfolding int
number_test = refl

str_test : str 1205 ≡ "1205"
unfolding str
str_test = refl
