-- ===== src/Versions/Toggles.antt =====
-- The toggles of the components: the forms of a component's name, and what wins.
use hpa_with_bmad.Base.{
  ◌∙◌, String, Bool, true, false, some, none, List, [], ◌∷◌, ◌≡◌, refl, lookup, string_eq, ◌+++◌,
  strip_prefix, strip_suffix, any, ◌==◌, arith, Dict, ◌&&◌, if◌then◌else◌, eq_iff, Char, code,
  text_length, ◌+◌, ap, ◌∙◌, Bool-cases, inl, inr, eqb_iff,
}
use hpa_with_bmad.Versions.{
  Environ, var_enabled, is_enabled, toggle_var, list_toggles, truthy, or_else, toggles_of,
  without_prefix, without_suffix,
}
use hpa_with_bmad.Versions.Tables.{core_toggles, enabled_defaults}
use mathlib.Core.Option

strip_prefix-append : (p s : String) → strip_prefix p (p +++ s) ≡ some s
unfolding strip_prefix ◌+++◌
strip_prefix-append String.[] s = refl
strip_prefix-append (String.◌∷◌ c p) s =
    rw (strip_prefix, (eqb_iff (code c) (code c)).1 refl) (strip_prefix-append p s)

length-append : (s t : String) → text_length (s +++ t) ≡ text_length s + text_length t
unfolding ◌+++◌
length-append String.[] t = omega arith
length-append (String.◌∷◌ c s) t = omega (arith, length-append s t)

longer_ne : (t s : String) (c : Char) → (t == (String.◌∷◌ c (s +++ t))) ≡ false
longer_ne t s c = elim (Bool-cases (t == (String.◌∷◌ c (s +++ t)))) [
  | inr e ↦ e
  | inl e ↦
      let same : t ≡ String.◌∷◌ c (s +++ t) = (eq_iff t (String.◌∷◌ c (s +++ t))).0 e in
      absurd (omega (arith, ap text_length same, length-append s t))
]

strip_suffix-append : (s t : String) → strip_suffix t (s +++ t) ≡ some s
unfolding strip_suffix ◌+++◌
strip_suffix-append String.[] String.[] = refl
strip_suffix-append String.[] (String.◌∷◌ c t) =
    rw (strip_suffix, (eq_iff (String.◌∷◌ c t) (String.◌∷◌ c t)).1 refl) refl
strip_suffix-append (String.◌∷◌ c s) t =
    rw (strip_suffix, longer_ne t s c, strip_suffix-append s t) refl

-- A name that is written without the prefix and without the suffix, and is not "HPDC" itself, which
-- the suffix would give the prefix.
pub record IsBare (name : String) : Type 0 where
  pub no_prefix : strip_prefix "HPDC_" name ≡ none
  pub no_suffix : strip_suffix "_ENABLED" name ≡ none
  pub no_late_prefix : strip_prefix "HPDC_" (name +++ "_ENABLED") ≡ none

-- What decides on a component, as layers of answers.
abbrev pub expected : Environ → String → Bool
expected env var =
    elim (or_else (if any (λ t. t == var) core_toggles then some true else none) (
      or_else (Option.map (λ v. truthy (some v)) (lookup var env)) (lookup var enabled_defaults))) [
        | none ↦ false
        | some answer ↦ answer
      ]

var_enabled_lem : (env : Environ) (var : String) → var_enabled env var ≡ expected env var
unfolding var_enabled
var_enabled_lem env var = ground arith

toggle_var-parts :
    (component a b : String)
    → without_prefix component ≡ a
    → without_suffix a ≡ b
    → toggle_var component ≡ "HPDC_" +++ b +++ "_ENABLED"
unfolding toggle_var
toggle_var-parts component a b p q =
    ap (λ (n : String). "HPDC_" +++ n +++ "_ENABLED") (ap without_suffix p ∙ q)

toggle_var_forms :
    (name : String)
    → IsBare name
    → (toggle_var name ≡ "HPDC_" +++ name +++ "_ENABLED")
      × (toggle_var ("HPDC_" +++ name) ≡ "HPDC_" +++ name +++ "_ENABLED")
      × (toggle_var (name +++ "_ENABLED") ≡ "HPDC_" +++ name +++ "_ENABLED")
      × (toggle_var ("HPDC_" +++ name +++ "_ENABLED") ≡ "HPDC_" +++ name +++ "_ENABLED")
unfolding toggle_var
toggle_var_forms name w =
    let late : without_suffix (name +++ "_ENABLED") ≡ name =
      rw (without_suffix, strip_suffix-append name "_ENABLED") refl in
    (
      toggle_var-parts name name name (rw (without_prefix, w.no_prefix) refl)
          (rw (without_suffix, w.no_suffix) refl),
      toggle_var-parts ("HPDC_" +++ name) name name
          (rw (without_prefix, strip_prefix-append "HPDC_" name) refl)
          (rw (without_suffix, w.no_suffix) refl),
      toggle_var-parts (name +++ "_ENABLED") (name +++ "_ENABLED") name
          (rw (without_prefix, w.no_late_prefix) refl) late,
      toggle_var-parts ("HPDC_" +++ name +++ "_ENABLED") (name +++ "_ENABLED") name
          (rw (without_prefix, strip_prefix-append "HPDC_" (name +++ "_ENABLED")) refl) late,
    )

-- The four spellings of a component's name ask for one variable, HPDC_<name>_ENABLED, and so
-- `is_enabled` gives one answer for them: true for a core component, else what the environment sets,
-- else the default of the table, else false.
pub is_enabled_forms :
    (env : Environ) (name : String)
    → IsBare name
    → (is_enabled env name ≡ expected env ("HPDC_" +++ name +++ "_ENABLED"))
      × (is_enabled env ("HPDC_" +++ name) ≡ expected env ("HPDC_" +++ name +++ "_ENABLED"))
      × (is_enabled env (name +++ "_ENABLED") ≡ expected env ("HPDC_" +++ name +++ "_ENABLED"))
      × (is_enabled env ("HPDC_" +++ name +++ "_ENABLED")
          ≡ expected env ("HPDC_" +++ name +++ "_ENABLED"))
unfolding is_enabled
is_enabled_forms env name w =
    let (p, q, r, t) = toggle_var_forms name w in
    rw (p, q, r, t, var_enabled_lem env ("HPDC_" +++ name +++ "_ENABLED")) (refl, refl, refl, refl)

-- Every toggle of the table names itself.
names_itself : List (String × Bool) → Bool
names_itself [] = true
names_itself ((var, _) ∷ rest) =
    toggle_var (without_suffix (without_prefix var)) == var && names_itself rest

table_names_itself : names_itself enabled_defaults ≡ true
unfolding names_itself toggle_var strip_prefix strip_suffix ◌+++◌
table_names_itself = refl

lookup-toggles_of :
    (env : Environ) (table : Dict String Bool) (var : String)
    → names_itself table ≡ true
    → lookup var (toggles_of env table) ≡ Option.map (λ _. var_enabled env var) (lookup var table)
unfolding toggles_of lookup names_itself is_enabled
lookup-toggles_of env [] var h = refl
lookup-toggles_of env ((v, b) ∷ table) var h =
    let named : (toggle_var (without_suffix (without_prefix v)) == v) ≡ true = ground arith in
    let same = (eq_iff (toggle_var (without_suffix (without_prefix v))) v).0 named in
    rw same (elim (Bool-cases (v == var)) [
      | inl e ↦ let found = (eq_iff v var).0 e in rw found (rw (eq_iff var var).1 refl)
      | inr e ↦ rw e (lookup-toggles_of env table var (ground arith))
    ])

-- `list_toggles` lists the toggles of the table, each with what `is_enabled` says of it.
pub lookup-list_toggles :
    (env : Environ) (var : String)
    → lookup var (list_toggles env)
      ≡ Option.map (λ _. var_enabled env var) (lookup var enabled_defaults)
unfolding list_toggles
lookup-list_toggles env var = lookup-toggles_of env enabled_defaults var table_names_itself
