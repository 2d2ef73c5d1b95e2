-- ===== src/Startup/Select.antt =====
-- The numbers and labels of steps, and the selection by `--step`.
use hpa_with_bmad.Base.{
  ℕ, ◌/◌, ◌%◌, eqb, ltb, String, Bool, ◌||◌, none, some, List, [], ◌∷◌, ◌++◌, string_eq, ◌==◌,
  decimal, strip_prefix, ◌+++◌, if◌then◌else◌,
}
use hpa_with_bmad.Startup.{Step, stem_of}

-- The selected steps, or the selection of the ValueError.
pub data Selection : Type 0 where
  selected_are : List Step → Selection
  unknown : String → Selection

abbrev without : String → String → String
without prefix s = elim (strip_prefix prefix s) [ none ↦ s | some rest ↦ rest ]

-- `normalize_selection`
unfoldable pub normalize_selection : String → String
normalize_selection selection = without "scripts/steps/" (without "./" selection)

-- `f"{n:02d}"`
abbrev pub two_digits : ℕ → String
two_digits n = if ltb n 10 then "0" +++ decimal n else decimal n

-- `str(step.number)`, for a number with one decimal place
abbrev pub number_text : ℕ → String
number_text number = decimal (number / 10) +++ "." +++ decimal (number % 10)

-- What `int((number % 1) * 10)` makes of ten times a number that is not whole, in floating point.
module _ (tenth : ℕ → ℕ) where
  -- `step_label`
  unfoldable pub step_label : ℕ → String
  step_label number =
      if eqb (number % 10) 0
      then two_digits (number / 10)
      else two_digits (number / 10) +++ "." +++ decimal (tenth number)

  -- `step_matches`
  unfoldable pub step_matches : Step → String → Bool
  step_matches step selection =
      let normalized = normalize_selection selection in
      normalized == step.name
      || normalized == step.file
      || normalized == stem_of step
      || normalized == number_text step.number
      || normalized == step_label step.number

  unfoldable pub matches_of : List Step → String → List Step
  matches_of [] selection = []
  matches_of (step ∷ steps) selection =
      let rest = matches_of steps selection in
      if step_matches step selection then step ∷ rest else rest

  unfoldable pub select_all : List Step → List String → Selection
  select_all steps [] = selected_are []
  select_all steps (selection ∷ selections) =
      let rest = select_all steps selections in
      elim (matches_of steps selection) [
        | [] ↦ unknown selection
        | step ∷ found ↦ elim rest [
          | unknown s ↦ unknown s
          | selected_are later ↦ selected_are ((step ∷ found) ++ later)
        ]
      ]

  -- `selected_steps`
  unfoldable pub selected_steps : List Step → List String → Selection
  selected_steps steps [] = selected_are steps
  selected_steps steps (selection ∷ selections) = select_all steps (selection ∷ selections)
