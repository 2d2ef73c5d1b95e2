-- ===== src/Edge/Envelope.antt =====
-- `validate_envelope` of events-ingest.py; `none` is the return, `some message` the ValueError.
use hpa_with_bmad.Base.{
  String, Bool, true, false, Option, none, some, List, [], ◌∷◌, if◌then◌else◌, not, Dict, has_key,
  string_eq, ◌+++◌, ends_with,
}
use hpa_with_bmad.Json.{Value, str, obj, as_object, get}
use hpa_with_bmad.Edge.{required_fields}

-- `[f for f in REQUIRED_FIELDS if f not in data]`
unfoldable pub missing_fields : List String → Dict String Value → List String
missing_fields [] d = []
missing_fields (f ∷ fs) d = let rest = missing_fields fs d in if has_key f d then rest else f ∷ rest

-- `', '.join(names)`
unfoldable pub join : List String → String
join [] = ""
join (s ∷ []) = s
join (s ∷ t ∷ rest) = s +++ ", " +++ join (t ∷ rest)

abbrev is_dict : Value → Bool
is_dict (obj _) = true
is_dict _ = false

abbrev ends_in_z : Value → Bool
ends_in_z (str s) = ends_with "Z" s
ends_in_z _ = false

unfoldable pub envelope_error : Dict String Value → Option String
envelope_error d = elim (missing_fields required_fields d) [
  | f ∷ fs ↦ some ("missing envelope fields: " +++ join (f ∷ fs))
  | [] ↦
      if not (is_dict (get "payload" d))
      then some "payload must be a JSON object"
      else if not (ends_in_z (get "timestamp" d))
      then some "timestamp must be an RFC3339 string ending in Z"
      else none
]

unfoldable pub validate_envelope : Value → Option String
unfolding envelope_error missing_fields join
validate_envelope v = elim (as_object v) [
  | none ↦ some "envelope must be a JSON object"
  | some d ↦ envelope_error d
]
