-- ===== src/Prelude/Decimal.antt =====
-- The text of a number in decimal digits, as `${n}` of the source writes it, and the reading of it.
use Prim.Native.Nat.{ℕ, zero, suc, ◌+◌, ◌*◌, ◌-◌, ◌<◌, ◌/◌, ◌%◌}
use Prim.Native.String.{String, ◌++◌ as join}
use Prim.Native.Char.{Char, code}
use text.Mathlib.TextLemmas.{cons-append, nil-append}
use mathlib.Core.Path.{◌≡◌, ap, ◌∙◌}
use mathlib.Core.Logic.{inl, inr}
use native.Mathlib.Omega.{arith}
use nexusts.Prelude.Tests.{ltb, ◌==◌, if◌then◌else◌, Bool-cases}

abbrev pub digit : ℕ → String
digit n =
    if n == 0
    then "0"
    else if n == 1
    then "1"
    else if n == 2
    then "2"
    else if n == 3
    then "3"
    else if n == 4
    then "4"
    else if n == 5
    then "5"
    else if n == 6
    then "6"
    else if n == 7
    then "7"
    else if n == 8
    then "8"
    else "9"

-- The digits of a number before a text; a number has fewer digits than its successor.
unfoldable pub digits : (fuel n : ℕ) → String → String
digits zero n after = after
digits (suc fuel) n after =
    let rest = digits fuel (n / 10) (join (digit (n % 10)) after) in
    if ltb n 10 then join (digit n) after else rest

unfoldable pub decimal : ℕ → String
unfolding digits
decimal n = digits (suc n) n ""

-- The number that the digits of a text go on to, after those that were read.
abbrev pub read_digits : ℕ → String → ℕ
read_digits acc String.[] = acc
read_digits acc (String.◌∷◌ c s) = read_digits (acc * 10 + (code c - 48)) s

read_char :
    (acc : ℕ) (c : Char) (s : String)
    → read_digits acc (join (String.◌∷◌ c String.[]) s) ≡ read_digits (acc * 10 + (code c - 48)) s
read_char acc c s =
    ap (read_digits acc) (cons-append c String.[] s ∙ ap (String.◌∷◌ c) (nil-append s))

read_digit :
    (acc d : ℕ) (s : String)
    → d < 10
    → read_digits acc (join (digit d) s) ≡ read_digits (acc * 10 + d) s
read_digit acc zero s h = read_char acc "0" s
read_digit acc (suc zero) s h = read_char acc "1" s
read_digit acc (suc (suc zero)) s h = read_char acc "2" s
read_digit acc (suc (suc (suc zero))) s h = read_char acc "3" s
read_digit acc (suc (suc (suc (suc zero)))) s h = read_char acc "4" s
read_digit acc (suc (suc (suc (suc (suc zero))))) s h = read_char acc "5" s
read_digit acc (suc (suc (suc (suc (suc (suc zero)))))) s h = read_char acc "6" s
read_digit acc (suc (suc (suc (suc (suc (suc (suc zero))))))) s h = read_char acc "7" s
read_digit acc (suc (suc (suc (suc (suc (suc (suc (suc zero)))))))) s h = read_char acc "8" s
read_digit acc (suc (suc (suc (suc (suc (suc (suc (suc (suc zero))))))))) s h = read_char acc "9" s
read_digit acc (suc (suc (suc (suc (suc (suc (suc (suc (suc (suc d)))))))))) s h =
    absurd (omega arith)

read_digits-digits :
    (fuel n : ℕ) (s : String) → n < fuel → read_digits 0 (digits fuel n s) ≡ read_digits n s
unfolding digits
read_digits-digits zero n s h = absurd (omega arith)
read_digits-digits (suc fuel) n s h = elim (Bool-cases (ltb n 10)) [
  | inl e ↦
      rw e (read_digit 0 n s (ground (arith, e)) ∙ ap (λ (k : ℕ). read_digits k s) (omega arith))
  | inr e ↦ rw e (
      read_digits-digits fuel (n / 10) (join (digit (n % 10)) s) (ground (arith, e))
      ∙ read_digit (n / 10) (n % 10) s (omega arith)
      ∙ ap (λ (k : ℕ). read_digits k s) (omega arith))
]

-- The number is read back from its text, so that two numbers have two texts.
pub read_digits-decimal : (n : ℕ) → read_digits 0 (decimal n) ≡ n
unfolding decimal
read_digits-decimal n = read_digits-digits (suc n) n "" (omega arith)
