-- ===== src/Base/Decimal.antt =====
-- Decimal texts determine their numbers.
use Prim.Native.Nat.{ℕ, zero, suc, ◌+◌, ◌-◌, ◌*◌, ◌/◌, ◌%◌, ◌<◌}
use Prim.Native.Char.{code}
use Prim.Native.String.{String, [], ◌∷◌}
use mathlib.Core.Path.{◌≡◌, refl, sym, ap, ◌∙◌}
use mathlib.Core.Logic.{inl, inr}
use mathlib.Core.Bool.{true, false}
use native.Mathlib.Omega.{arith}
use hpa_with_bmad.Base.Tests.{
  eqb, eqb_iff, ltb, ltb→lt, every_under, every_under_lem, if◌then◌else◌, Bool-cases,
}
use hpa_with_bmad.Base.Text.{◌+++◌, char_at, show_from, decimal}

-- The number that stands before the first dash.
read_digits : ℕ → String → ℕ
read_digits acc [] = acc
read_digits acc (c ∷ s) =
    let rest = read_digits (acc * 10 + (code c - 48)) s in if eqb (code c) b'-' then acc else rest

digit_table : every_under (λ d. eqb (code (char_at "0123456789" d)) (48 + d)) 10 ≡ true
unfolding every_under char_at
digit_table = refl

code-digit : (d : ℕ) → d < 10 → code (char_at "0123456789" d) ≡ 48 + d
code-digit d h =
    (eqb_iff _ _).0
      (every_under_lem (λ d. eqb (code (char_at "0123456789" d)) (48 + d)) 10 d h digit_table)

read_digits-digit :
    (acc d : ℕ) (s : String)
    → d < 10
    → read_digits acc (char_at "0123456789" d ∷ s) ≡ read_digits (acc * 10 + d) s
unfolding read_digits
read_digits-digit acc d s h = ground (arith, code-digit d)

small_number : (n : ℕ) → n < 10 → 0 * 10 + n % 10 ≡ n
small_number n h = omega arith

ten_parts : (n : ℕ) → n / 10 * 10 + n % 10 ≡ n
ten_parts n = omega arith

smaller : (n fuel : ℕ) → ltb n 10 ≡ false → n < suc fuel → n / 10 < fuel
smaller n fuel large h = ground arith

-- `show_from` puts the digits of its number in front.
read_digits-show_from :
    (fuel n : ℕ) (later : String)
    → n < fuel
    → read_digits 0 (show_from fuel n later) ≡ read_digits n later
unfolding show_from
read_digits-show_from zero n later h = absurd (omega arith)
read_digits-show_from (suc fuel) n later h =
    let d = n % 10 in
    elim (Bool-cases (ltb n 10)) [
      | inl small ↦
          rw (small, show_from)
            (read_digits-digit 0 d later (omega arith)
              ∙ ap (λ (k : ℕ). read_digits k later) (small_number n (ltb→lt n 10 small)))
      | inr large ↦
          rw (large, show_from)
            (read_digits-show_from fuel (n / 10) (char_at "0123456789" d ∷ later)
                (smaller n fuel large h)
              ∙ read_digits-digit (n / 10) d later (omega arith)
              ∙ ap (λ (k : ℕ). read_digits k later) (ten_parts n))
    ]

show_from-append :
    (fuel n : ℕ) (later t : String) → show_from fuel n later +++ t ≡ show_from fuel n (later +++ t)
unfolding show_from ◌+++◌
show_from-append zero n later t = refl
show_from-append (suc fuel) n later t = elim (Bool-cases (ltb n 10)) [
  | inl small ↦ rw (small, show_from) refl
  | inr large ↦
      rw (large, show_from)
        (show_from-append fuel (n / 10) (char_at "0123456789" (n % 10) ∷ later) t)
]

at_dash : (n : ℕ) (t : String) → read_digits n ("" +++ "-" +++ t) ≡ n
unfolding read_digits ◌+++◌
at_dash n t = refl

read_decimal : (n : ℕ) (t : String) → read_digits 0 (decimal n +++ "-" +++ t) ≡ n
unfolding decimal
read_decimal n t =
    ap (read_digits 0) (show_from-append (suc n) n "" ("-" +++ t))
    ∙ read_digits-show_from (suc n) n _ (omega arith)
    ∙ at_dash n t

-- A number and a dash in front of two texts: equal texts have equal numbers.
pub decimal-injective :
    (m n : ℕ) (s t : String) → decimal m +++ "-" +++ s ≡ decimal n +++ "-" +++ t → m ≡ n
decimal-injective m n s t h = sym (read_decimal m s) ∙ ap (read_digits 0) h ∙ read_decimal n t
