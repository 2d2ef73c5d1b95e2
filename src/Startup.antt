-- ===== src/Startup.antt =====
-- scripts/startup.dev.py: the setup steps of the cluster, which of them run, and with what arguments.
pub mod Toggles
pub mod Select
pub mod Modes
pub mod Run
pub mod Order
pub mod Main
pub mod Tests
use hpa_with_bmad.Base.{
  ℕ, ℤ, String, Bool, true, false, Option, none, some, List, [], ◌∷◌, Dict, string_eq, ◌==◌, any,
  ends_with, strip_suffix, if◌then◌else◌,
}

-- `Step`, with ten times its number; `file` is the name of its file.
pub record Step : Type 0 where
  pub file : String
  pub number : ℕ
  pub name : String
  pub description : String

-- `step.path.stem`, for the name of a Python file
unfoldable pub stem_of : Step → String
stem_of step = elim (strip_suffix ".py" step.file) [ none ↦ step.file | some s ↦ s ]

abbrev pub member : String → List String → Bool
member s names = any (λ n. n == s) names

-- The arguments of the command, as far as a run reads them.
pub record Arguments : Type 0 where
  pub dry_run : Bool
  pub apply : Bool
  pub check : Bool
  pub step : List String
  pub storage : Option String
  pub provider : Option String
