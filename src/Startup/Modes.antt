-- ===== src/Startup/Modes.antt =====
-- The arguments that each step is given.
use hpa_with_bmad.Base.{
  String, Bool, true, false, not, ◌||◌, Option, none, some, List, [], ◌∷◌, ◌++◌, string_eq, ◌==◌,
  eq_iff, if◌then◌else◌, ◌≡◌, ◌⊎◌, refl, arith, Bool-cases, inl, inr,
}
use hpa_with_bmad.Startup.{Step, member, Arguments}

abbrev option : String → Option String → List String
option flag none = []
option flag (some value) = if value == "" then [] else flag ∷ value ∷ []

-- The flag of the mode, before the options; `none` is the ValueError of two modes
abbrev pub mode_flag : Arguments → Option String
mode_flag args =
    if args.apply
    then (if args.dry_run then none else some "--apply")
    else if args.check
    then (if args.dry_run then none else some "--check")
    else some "--dry-run"

-- `build_mode_args`, where `--offline` is always set
unfoldable pub build_mode_args : Arguments → Option (List String)
build_mode_args args = elim (mode_flag args) [
  | none ↦ none
  | some flag ↦
      some (
        "--offline" ∷ flag ∷ (option "--storage" args.storage ++ option "--provider" args.provider))
]

-- The word after the first `--storage`, if there is one.
unfoldable pub storage_word : List String → Option String
storage_word [] = none
storage_word (word ∷ words) =
    let rest = storage_word words in
    if word == "--storage" then elim words [ [] ↦ none | next ∷ _ ↦ some next ] else rest

-- `args.extend(["--storage", ...])`
abbrev pub storage_args : List String → List String
storage_args mode_args = elim (storage_word mode_args) [
  | none ↦ []
  | some value ↦ "--storage" ∷ value ∷ []
]

-- The flag of the mode that most steps are given.
abbrev pub passed_flag : List String → String
passed_flag mode_args =
    if member "--apply" mode_args
    then "--apply"
    else if member "--check" mode_args
    then "--check"
    else "--dry-run"

abbrev pub is_storage_aware : Step → Bool
is_storage_aware step =
    step.name == "02-bootstrap-talos-dev.py" || step.name == "05-install-storage-dev.py"

-- `step_mode_args`
unfoldable pub step_mode_args : Step → List String → List String
step_mode_args step mode_args =
    if step.name == "01-bootstrap-dev.py"
    then (if member "--check" mode_args then "--check" ∷ [] else [])
    else if step.name == "01.5-configure-firewalld-talos.py"
    then if member "--check" mode_args
      then "--check" ∷ []
      else if member "--apply" mode_args
      then "--apply" ∷ []
      else "--dry-run" ∷ []
    else if step.name == "02-bootstrap-talos-dev.py"
    then if member "--check" mode_args
      then "--check" ∷ []
      else if member "--dry-run" mode_args
      then "--dry-run" ∷ []
      else storage_args mode_args
    else (if member "--offline" mode_args then "--offline" ∷ [] else [])
      ++ passed_flag mode_args ∷ (if is_storage_aware step then storage_args mode_args else [])

-- A value of an option that is no flag of a mode.
abbrev pub IsPlain : Option String → Type 0
IsPlain none = Unit
IsPlain (some value) =
    ((value == "--apply") ≡ false)
    × ((value == "--check") ≡ false)
    × ((value == "--dry-run") ≡ false)

member-storage_args :
    (x : String) (words : List String)
    → ("--storage" == x) ≡ false
    → member x words ≡ false
    → member x (storage_args words) ≡ false
unfolding storage_word
member-storage_args x [] ne h = refl
member-storage_args x (word ∷ []) ne h = ground (arith, ne, h, eq_iff word "--storage")
member-storage_args x (word ∷ next ∷ words) ne h = elim (Bool-cases (word == "--storage")) [
  | inl found ↦ rw (storage_args, storage_word, found) (ground (arith, ne, h))
  | inr other ↦
      rw (storage_args, storage_word, other)
        (member-storage_args x (next ∷ words) ne (ground (arith, h)))
]

member-append :
    (x : String) (ws vs : List String) → member x (ws ++ vs) ≡ (member x ws || member x vs)
member-append x [] vs = refl
member-append x (w ∷ ws) vs = ground (arith, member-append x ws vs)

member-option :
    (x flag : String) (o : Option String)
    → (flag == x) ≡ false
    → ((v : String) → o ≡ some v → (v == x) ≡ false)
    → member x (option flag o) ≡ false
member-option x flag none ne h = refl
member-option x flag (some v) ne h = ground (arith, ne, h v refl)

-- What the words for the steps say of the mode, in a run without `--apply`.
record Says (args : Arguments) (words : List String) : Type 0 where
  no_apply : member "--apply" words ≡ false
  checks : member "--check" words ≡ args.check
  dry : member "--dry-run" words ≡ not args.check

plain_value :
    (o : Option String)
    → IsPlain o
    → (x : String) → ((v : String) → IsPlain (some v) → (v == x) ≡ false)
    → (v : String) → o ≡ some v
    → (v == x) ≡ false
plain_value none plain x h v e = cc
plain_value (some w) plain x h v e = let same : w ≡ v = cc in rw⁻¹ same (h w plain)

words-Says :
    (args : Arguments) (words : List String)
    → args.apply ≡ false
    → IsPlain args.storage
    → IsPlain args.provider
    → build_mode_args args ≡ some words
    → Says args words
unfolding build_mode_args
words-Says args words no_apply storage provider built =
    let options = option "--storage" args.storage ++ option "--provider" args.provider in
    let free : (x : String)
        → ("--storage" == x) ≡ false
        → ("--provider" == x) ≡ false
        → ((v : String) → IsPlain (some v) → (v == x) ≡ false)
        → member x options ≡ false =
      λ x s p h.
        rw
          (
            member-append x (option "--storage" args.storage) (option "--provider" args.provider),
            member-option x "--storage" args.storage s (plain_value args.storage storage x h),
            member-option x "--provider" args.provider p (plain_value args.provider provider x h),
          )
          refl in
    let apply_free = free "--apply" refl refl (λ v h. h.0) in
    let check_free = free "--check" refl refl (λ v h. h.1) in
    let dry_free = free "--dry-run" refl refl (λ v h. h.2) in
    elim (Bool-cases args.check) [
      | inl c ↦ elim (Bool-cases args.dry_run) [
        | inl d ↦ absurd (let k = rw (no_apply, c, d, build_mode_args) at built in cc)
        | inr d ↦
            let same : "--offline" ∷ "--check" ∷ options ≡ words =
              cc (rw (no_apply, c, d, build_mode_args) at built) in
            rw⁻¹ same (record { no_apply = apply_free; checks = rw c refl; dry = rw c dry_free })
      ]
      | inr c ↦
          let same : "--offline" ∷ "--dry-run" ∷ options ≡ words =
            cc (rw (no_apply, c, build_mode_args) at built) in
          rw⁻¹ same (record { no_apply = apply_free; checks = rw c check_free; dry = rw c refl })
    ]

-- The arguments of most steps.
general_args :
    (offline aware : Bool) (flag : String) (stored : List String)
    → (flag == "--apply") ≡ false
    → member "--apply" stored ≡ false
    → let words =
        (if offline then "--offline" ∷ [] else []) ++ flag ∷ (if aware then stored else []) in
      (member "--apply" words ≡ false) × (member flag words ≡ true)
general_args true true flag stored f h = (ground (arith, f, h), ground (arith, eq_iff flag flag))
general_args true false flag stored f h = (ground (arith, f, h), ground (arith, eq_iff flag flag))
general_args false true flag stored f h = (ground (arith, f, h), ground (arith, eq_iff flag flag))
general_args false false flag stored f h = (ground (arith, f, h), ground (arith, eq_iff flag flag))

-- Without `--apply` no step is told to apply: a step is given `--check` or `--dry-run`, as the command
-- was, except that step 01 is given nothing at all in a dry run. This if the values of the options are
-- no flags themselves.
pub never_told_to_apply :
    (args : Arguments) (mode_args : List String) (step : Step)
    → args.apply ≡ false
    → IsPlain args.storage
    → IsPlain args.provider
    → build_mode_args args ≡ some mode_args
    → (member "--apply" (step_mode_args step mode_args) ≡ false)
      × ((member (if args.check then "--check" else "--dry-run") (step_mode_args step mode_args)
            ≡ true)
          ⊎ ((step_mode_args step mode_args ≡ [])
              × (step.name ≡ "01-bootstrap-dev.py")
              × (args.check ≡ false)))
unfolding build_mode_args step_mode_args storage_word
never_told_to_apply args mode_args step no_apply storage provider built =
    let says = words-Says args mode_args no_apply storage provider built in
    let stored = member-storage_args "--apply" mode_args refl says.no_apply in
    elim (Bool-cases (step.name == "01-bootstrap-dev.py")) [
      | inl a ↦ elim (Bool-cases args.check) [
        | inl k ↦ rw (step_mode_args, a, says.checks, k) (refl, inl refl)
        | inr k ↦
            let named : step.name ≡ "01-bootstrap-dev.py" =
              ground (arith, a, eq_iff step.name "01-bootstrap-dev.py") in
            rw (step_mode_args, a, says.checks, k) (refl, inr (refl, named, refl))
      ]
      | inr a ↦ elim (Bool-cases (step.name == "01.5-configure-firewalld-talos.py")) [
        | inl b ↦ elim (Bool-cases args.check) [
          | inl k ↦ rw (step_mode_args, a, b, says.checks, k) (refl, inl refl)
          | inr k ↦ rw (step_mode_args, a, b, says.checks, says.no_apply, k) (refl, inl refl)
        ]
        | inr b ↦ elim (Bool-cases (step.name == "02-bootstrap-talos-dev.py")) [
          | inl c ↦ elim (Bool-cases args.check) [
            | inl k ↦ rw (step_mode_args, a, b, c, says.checks, k) (refl, inl refl)
            | inr k ↦ rw (step_mode_args, a, b, c, says.checks, says.dry, k) (refl, inl refl)
          ]
          | inr c ↦ elim (Bool-cases args.check) [
            | inl k ↦
                rw (step_mode_args, a, b, c, says.checks, says.no_apply, k)
                  (let general =
                      general_args (member "--offline" mode_args)
                        (step.name == "05-install-storage-dev.py") "--check"
                        (storage_args mode_args) refl stored in
                    (general.0, inl general.1))
            | inr k ↦
                rw (step_mode_args, a, b, c, says.checks, says.no_apply, k)
                  (let general =
                      general_args (member "--offline" mode_args)
                        (step.name == "05-install-storage-dev.py") "--dry-run"
                        (storage_args mode_args) refl stored in
                    (general.0, inl general.1))
          ]
        ]
      ]
    ]
