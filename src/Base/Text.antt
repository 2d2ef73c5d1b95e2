-- ===== src/Base/Text.antt =====
-- Texts are native strings, walked by their characters.
use Prim.Native.Nat.{ℕ, zero, suc, ◌-◌, ◌/◌, ◌%◌}
use Prim.Native.Char.{Char, code}
use Prim.Native.String.{String, [], ◌∷◌}
use mathlib.Core.Path.{◌≡◌, refl}
use mathlib.Core.Bool.{Bool, true, false, ◌||◌, ◌&&◌}
use mathlib.Core.Option
use text.Mathlib.Text.{◌==◌}
use mathlib.Core.Option.{Option, none, some}
use hpa_with_bmad.Base.Tests.{eqb, ltb, leb, if◌then◌else◌}

-- `s + t`
infixr 65 ◌+++◌
unfoldable pub ◌+++◌ : String → String → String
[] +++ t = t
(c ∷ s) +++ t = c ∷ (s +++ t)

-- `s[len(p):]` if `s.startswith(p)`
unfoldable pub strip_prefix : String → String → Option String
strip_prefix [] s = some s
strip_prefix (c ∷ p) [] = none
strip_prefix (c ∷ p) (d ∷ s) =
    let rest = strip_prefix p s in if eqb (code c) (code d) then rest else none

unfoldable pub starts_with : String → String → Bool
unfolding strip_prefix
starts_with p s = elim (strip_prefix p s) [ none ↦ false | some _ ↦ true ]

-- `t in s`
unfoldable pub occurs : String → String → Bool
unfolding starts_with
occurs t [] = t == ""
occurs t (c ∷ s) = starts_with t (c ∷ s) || occurs t s

-- `s.endswith(t)`
unfoldable pub ends_with : String → String → Bool
ends_with t [] = t == ""
ends_with t (c ∷ s) = t == (c ∷ s) || ends_with t s

-- `s[:-len(t)]` if `s.endswith(t)`
unfoldable pub strip_suffix : String → String → Option String
strip_suffix t [] = if t == "" then some [] else none
strip_suffix t (c ∷ s) =
    let rest = Option.map (λ r. c ∷ r) (strip_suffix t s) in if t == (c ∷ s) then some [] else rest

-- `s[i]`; no caller leaves the alphabet, so the value beyond the end plays no part
unfoldable pub char_at : String → ℕ → Char
char_at String.[] i = "0"
char_at (String.◌∷◌ c s) zero = c
char_at (String.◌∷◌ c s) (suc i) = char_at s i

-- `str(n)`: the last digit first; a number has fewer digits than `n + 1`, so the fuel suffices
unfoldable pub show_from : ℕ → ℕ → String → String
show_from zero n later = later
show_from (suc fuel) n later =
    let shown = char_at "0123456789" (n % 10) ∷ later in
    let rest = show_from fuel (n / 10) shown in if ltb n 10 then shown else rest

unfoldable pub decimal : ℕ → String
unfolding show_from char_at
decimal n = show_from (suc n) n ""

decimal_runs : decimal 1050 ≡ "1050"
unfolding decimal
decimal_runs = refl

strip_prefix_runs : strip_prefix "/data/" "/data/x1" ≡ some "x1"
unfolding strip_prefix
strip_prefix_runs = refl

strip_suffix_runs : strip_suffix "/transition" "a/b/transition" ≡ some "a/b"
unfolding strip_suffix
strip_suffix_runs = refl

append_runs : "ab" +++ "cd" ≡ "abcd"
unfolding ◌+++◌
append_runs = refl

-- `s.lower()`, as far as the letters a to z can be seen in it: the capitals A to Z, and the sign for
-- degrees Kelvin, are the characters that it turns into one of these.
unfoldable pub lower : String → String
lower [] = []
lower (c ∷ s) =
    (if leb b'A' (code c) && leb (code c) b'Z'
      then char_at "abcdefghijklmnopqrstuvwxyz" (code c - b'A')
      else if eqb (code c) 8490
      then char_at "k" 0
      else c)
    ∷ lower s

-- `s.lstrip(...)` and `s.rstrip(...)` of the characters of a class
unfoldable pub lstrip : (ℕ → Bool) → String → String
lstrip class [] = []
lstrip class (c ∷ s) = let rest = lstrip class s in if class (code c) then rest else c ∷ s

unfoldable pub rstrip : (ℕ → Bool) → String → String
rstrip class [] = []
rstrip class (c ∷ s) =
    let rest = rstrip class s in if class (code c) && rest == "" then [] else c ∷ rest

unfoldable pub strip : (ℕ → Bool) → String → String
unfolding lstrip rstrip
strip class s = rstrip class (lstrip class s)

-- `s.partition(c)` at the first character of the class: what stands before and after it
unfoldable pub partition : ℕ → String → Option (String × String)
partition sep [] = none
partition sep (c ∷ s) =
    let rest = Option.map (λ (p : String × String). (String.◌∷◌ c p.0, p.1)) (partition sep s) in
    if eqb (code c) sep then some ([], s) else rest

-- `s.split(t, 1)[0]`
unfoldable pub before : String → String → String
unfolding starts_with
before t [] = []
before t (c ∷ s) = let rest = before t s in if starts_with t (c ∷ s) then [] else c ∷ rest

abbrev pub text_length : String → ℕ
text_length [] = 0
text_length (c ∷ s) = suc (text_length s)

strip_runs : strip (λ c. eqb c 32) "  a b " ≡ "a b"
unfolding strip
strip_runs = refl

partition_runs : partition b'=' "key=a=b" ≡ some ("key", "a=b")
unfolding partition
partition_runs = refl

before_runs : before " #" "1.2 # pinned" ≡ "1.2"
unfolding before strip_prefix
before_runs = refl
