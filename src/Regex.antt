-- ===== src/Regex.antt =====
-- `re.compile(key + "([class]+)").search(text)` as entity-api-local.py and identity-authz-local.py use
-- it: the leftmost place where the key is followed by at least one character of the class, and the
-- longest run of such characters there.
use hpa_with_bmad.Base.{
  ℕ, String, code, Bool, Option, none, some, if◌then◌else◌, ◌&&◌, ◌||◌, leb, eqb, not, ◌==◌,
  string_eq, strip_prefix, ◌≡◌, refl, ◌+++◌, true, arith,
}

-- `[A-Za-z0-9_]`
abbrev pub is_word : ℕ → Bool
is_word c =
    (leb b'A' c && leb c b'Z')
    || (leb b'a' c && leb c b'z')
    || (leb b'0' c && leb c b'9')
    || eqb c b'_'

-- `[A-Za-z0-9_\-]`
abbrev pub is_word_or_dash : ℕ → Bool
is_word_or_dash c = is_word c || eqb c b'-'

-- `[^ .]`
abbrev pub is_tenant_char : ℕ → Bool
is_tenant_char c = not (eqb c b' ') && not (eqb c b'.')

-- The longest prefix whose characters are of the class.
unfoldable pub span : (ℕ → Bool) → String → String
span class String.[] = String.[]
span class (String.◌∷◌ c s) =
    let rest = span class s in if class (code c) then String.◌∷◌ c rest else String.[]

-- The group of a match that starts at the text's first character.
unfoldable pub match_here : String → (ℕ → Bool) → String → Option String
unfolding span
match_here key class s = elim (strip_prefix key s) [
  | none ↦ none
  | some rest ↦ if span class rest == "" then none else some (span class rest)
]

-- The group of the leftmost match; a key is not empty, so the empty text has no match.
unfoldable pub search_group : String → (ℕ → Bool) → String → Option String
unfolding match_here
search_group key class String.[] = none
search_group key class (String.◌∷◌ c s) =
    let later = search_group key class s in
    elim (match_here key class (String.◌∷◌ c s)) [ none ↦ later | some group ↦ some group ]

-- What `span` leaves.
unfoldable pub after : (ℕ → Bool) → String → String
after class String.[] = String.[]
after class (String.◌∷◌ c s) =
    let rest = after class s in if class (code c) then rest else String.◌∷◌ c s

-- `\s`: the characters of which `str.isspace` is true
abbrev pub is_space : ℕ → Bool
is_space c =
    (leb 9 c && leb c 13)
    || (leb 28 c && leb c 32)
    || eqb c 133
    || eqb c 160
    || eqb c 5760
    || (leb 8192 c && leb c 8202)
    || (leb 8232 c && leb c 8233)
    || eqb c 8239
    || eqb c 8287
    || eqb c 12288

-- A match of `\{\s*([A-Za-z0-9_]+)\s*\{` at the text's first character. No space is a word character,
-- so the greedy runs are the only ones that can match.
unfoldable pub block_here : String → Option String
unfolding span after
block_here s = elim (strip_prefix "{" s) [
  | none ↦ none
  | some rest ↦
      let body = after is_space rest in
      let name = span is_word body in
      if name == "" then none else elim (strip_prefix "{" (after is_space (after is_word body))) [
        | none ↦ none
        | some _ ↦ some name
      ]
]

-- The leftmost match.
unfoldable pub search_block : String → Option String
unfolding block_here
search_block String.[] = none
search_block (String.◌∷◌ c s) =
    let later = search_block s in
    elim (block_here (String.◌∷◌ c s)) [ none ↦ later | some name ↦ some name ]

block_runs : search_block "query { couchdb_entities { id } }" ≡ some "couchdb_entities"
unfolding search_block strip_prefix
block_runs = refl

-- Every character of the text is of the class.
abbrev pub all_in : (ℕ → Bool) → String → Bool
all_in class String.[] = true
all_in class (String.◌∷◌ c s) = class (code c) && all_in class s

-- A run that the class ends is the whole run.
pub span-append :
    (class : ℕ → Bool) (g t : String)
    → all_in class g ≡ true
    → span class t ≡ ""
    → span class (g +++ t) ≡ g
unfolding span ◌+++◌
span-append class String.[] t h e = e
span-append class (String.◌∷◌ c g) t h e =
    let first : class (code c) ≡ true = ground arith in
    let others : all_in class g ≡ true = ground arith in
    rw (first, span-append class g t others e) refl

search_runs : search_group "role=" is_word "Bearer role=.role=admin.x" ≡ some "admin"
unfolding search_group strip_prefix
search_runs = refl
