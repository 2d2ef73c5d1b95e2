-- ===== src/Json/Number.antt =====
-- Python's `int(v)`. Of a text it reads what `int` reads in ASCII: blanks around, a sign, and
-- digits with single underscores between them.
use hpa_with_bmad.Base.{
  ℕ, ℤ, pos, negsuc, suc, zero, ◌+◌, ◌-◌, ◌*◌, String, code, Bool, true, false, Option, none, some,
  if◌then◌else◌, ◌&&◌, ◌||◌, leb, eqb, ◌≡◌, refl, string_eq,
}
use hpa_with_bmad.Json.{Value, null, bool, num, str, arr, obj}
use mathlib.Core.Option

abbrev is_blank : ℕ → Bool
is_blank c = eqb c 32 || (leb 9 c && leb c 13) || (leb 28 c && leb c 31)

abbrev is_digit : ℕ → Bool
is_digit c = leb b'0' c && leb c b'9'

all_blank : String → Bool
all_blank String.[] = true
all_blank (String.◌∷◌ c s) = is_blank (code c) && all_blank s

skip_blanks : String → String
skip_blanks String.[] = String.[]
skip_blanks (String.◌∷◌ c s) = if is_blank (code c) then skip_blanks s else String.◌∷◌ c s

-- `closed` says that the character before was a digit
digits : Bool → ℕ → String → Option ℕ
digits closed n String.[] = if closed then some n else none
digits closed n (String.◌∷◌ c s) =
    let next = digits true (n * 10 + (code c - 48)) s in
    let skipped = digits false n s in
    if is_digit (code c)
    then next
    else if closed && eqb (code c) b'_'
    then skipped
    else if closed && all_blank (String.◌∷◌ c s)
    then some n
    else none

abbrev negate : ℕ → ℤ
negate zero = pos 0
negate (suc n) = negsuc n

signed : String → Option ℤ
signed String.[] = none
signed (String.◌∷◌ c s) =
    if eqb (code c) b'-'
    then Option.map negate (digits false 0 s)
    else if eqb (code c) b'+'
    then Option.map pos (digits false 0 s)
    else Option.map pos (digits false 0 (String.◌∷◌ c s))

unfoldable pub int_of_text : String → Option ℤ
unfolding signed skip_blanks digits all_blank
int_of_text s = signed (skip_blanks s)

-- `none` is ValueError or TypeError
abbrev pub int_of : Value → Option ℤ
int_of (num n) = some n
int_of (bool true) = some (pos 1)
int_of (bool false) = some (pos 0)
int_of (str s) = int_of_text s
int_of null = none
int_of (arr _) = none
int_of (obj _) = none

int_of_text_runs : int_of_text " -1_024 " ≡ some (negsuc 1023)
unfolding int_of_text
int_of_text_runs = refl

int_of_text_refuses : int_of_text "1__0" ≡ none
unfolding int_of_text
int_of_text_refuses = refl
