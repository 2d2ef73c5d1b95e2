-- ===== src/ChangeProcessor/Once.antt =====
-- No change is processed twice.
use hpa_with_bmad.Base.{
  ap, eqb_ℤ, eqb_ℤ_iff, not, ◌==◌, ℕ, ◌+◌, ◌≤◌, String, Bool, true, false, List, [], ◌∷◌, ◌++◌, ◌≡◌,
  inl, inr, refl, arith, eq_iff, Dict, lookup, string_eq, Bool-cases, if◌then◌else◌,
}
use hpa_with_bmad.Json.{Value, bool, num, str, get}
use hpa_with_bmad.Json.Equality.{same_value}
use hpa_with_bmad.ChangeProcessor.{
  FeedSpec, Logs, Run, Exit, is_processed, entry, process, process_all,
}
use hpa_with_bmad.ChangeProcessor.Step.{Step, idle, buries, processes, process-Step}

-- The same text, number or boolean.
abbrev pub is_same : Value → Value → Bool
is_same (str s) (str t) = s == t
is_same (num m) (num n) = eqb_ℤ m n
is_same (bool true) (bool b) = b
is_same (bool false) (bool b) = not b
is_same _ _ = false

-- The line is about the change with this id.
abbrev pub is_about : Value → Dict String Value → Bool
is_about id line = is_same id (get "source_change_id" line)

abbrev pub count : Value → List (Dict String Value) → ℕ
count id [] = 0
count id (line ∷ log) = (if is_about id line then 1 else 0) + count id log

count-append :
    (id : Value) (log : List (Dict String Value)) (line : Dict String Value)
    → count id (log ++ line ∷ []) ≡ count id log + (if is_about id line then 1 else 0)
count-append id [] line = omega arith
count-append id (l ∷ log) line = omega (arith, count-append id log line)

same_lem : (v w : Value) → is_same v w ≡ true → (w ≡ v) × (same_value v v ≡ true)
unfolding same_value
same_lem (str s) (str t) h =
    (ap str ((eq_iff t s).0 (ground (arith, h, eq_iff s t, eq_iff t s))), (eq_iff s s).1 refl)
same_lem (num m) (num n) h = (ap num (ground (arith, h, eqb_ℤ_iff m n)), (eqb_ℤ_iff m m).1 refl)
same_lem (bool true) (bool b) h = (ap bool h, refl)
same_lem (bool false) (bool false) h = (refl, refl)
same_lem (bool false) (bool true) h = absurd (cc)
same_lem _ _ h = absurd (cc)

same_found : (v w : Value) → is_same v w ≡ true → same_value w v ≡ true
same_found v w h = let (e, s) = same_lem v w h in rw e s

count-unprocessed :
    (id : Value) (log : List (Dict String Value)) → is_processed id log ≡ false → count id log ≡ 0
unfolding is_processed
count-unprocessed id [] h = refl
count-unprocessed id (line ∷ log) h =
    ground (arith, count-unprocessed id log, same_found id (get "source_change_id" line))

-- No text, number or boolean is the id of two lines.
abbrev pub IsOnce : Logs → Type 0
IsOnce s = (id : Value) → count id s.processed ≤ 1

entry-is_about :
    (id : Value) (spec : FeedSpec) (run : Run) (event : Dict String Value) (result : String)
    → is_about id (entry spec run event result) ≡ is_same id (get "source_change_id" event)
unfolding entry lookup
entry-is_about id spec run event result = refl

new_line :
    (id : Value) (spec : FeedSpec) (run : Run) (event : Dict String Value) (s : Logs)
    → is_processed (get "source_change_id" event) s.processed ≡ false
    → IsOnce s
    → count id (s.processed ++ entry spec run event "processed" ∷ []) ≤ 1
new_line id spec run event s fresh once =
    rw (count-append, entry-is_about)
      (elim (Bool-cases (is_same id (get "source_change_id" event))) [
        | inr other ↦ rw other (omega (arith, once id))
        | inl same ↦
            let fresh_id : is_processed id s.processed ≡ false =
              rw (← (same_lem id _ same).0) fresh in
            rw (same, count-unprocessed id s.processed fresh_id) (omega arith)
      ])

Step-IsOnce :
    (spec : FeedSpec) (s : Logs) (result : Exit × Logs)
    → Step spec s result
    → IsOnce s
    → IsOnce result.1
Step-IsOnce spec s _ (idle x) once = once
Step-IsOnce spec s _ (buries run event result) once = once
Step-IsOnce spec s _ (processes run event fresh) once =
    λ id. new_line id spec run event s fresh once

-- Exactly once, at most: after any runs, failed and repeated ones among them, no text, number or
-- boolean is the source_change_id of two lines in the processed log.
pub process_all-IsOnce :
    (spec : FeedSpec) (rs : List Run) (s : Logs) → IsOnce s → IsOnce (process_all spec rs s)
process_all-IsOnce spec [] s once = once
process_all-IsOnce spec (r ∷ rs) s once =
    process_all-IsOnce spec rs (process spec r s).1
      (Step-IsOnce spec s (process spec r s) (process-Step spec r s) once)
