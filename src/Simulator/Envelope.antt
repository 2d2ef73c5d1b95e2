-- ===== src/Simulator/Envelope.antt =====
-- `validate_common_envelope`: what a message must have to be sent.
use hpa_with_bmad.Base.{
  ℕ, ℤ, pos, ltb_ℤ, String, Bool, true, false, Option, none, some, List, [], ◌∷◌, Dict, has_key,
  string_eq, ◌==◌, not, if◌then◌else◌, ◌+++◌,
}
use hpa_with_bmad.Json.{Value, str, obj, get}

-- `MAX_ENVELOPE_SIZE_BYTES`
abbrev pub max_envelope_size_bytes : ℤ
max_envelope_size_bytes = pos 65536

-- `COMMON_ENVELOPE_FIELDS`
abbrev pub common_envelope_fields : List String
common_envelope_fields =
    "device_id" ∷ "device_type" ∷ "event_type" ∷ "timestamp" ∷ "payload" ∷ "region_id" ∷ "origin"
    ∷ "idempotency_key" ∷ []

abbrev pub text_fields : List String
text_fields =
    "device_id" ∷ "device_type" ∷ "event_type" ∷ "timestamp" ∷ "region_id" ∷ "origin"
    ∷ "idempotency_key" ∷ []

-- `[field for field in COMMON_ENVELOPE_FIELDS if field not in data]`
abbrev pub missing_in : Dict String Value → List String → List String
missing_in envelope [] = []
missing_in envelope (field ∷ fields) =
    let rest = missing_in envelope fields in if has_key field envelope then rest else field ∷ rest

-- `isinstance(v, str) and v`
abbrev pub is_full_text : Value → Bool
is_full_text (str s) = not (s == "")
is_full_text _ = false

abbrev pub first_bad_text : Dict String Value → List String → Option String
first_bad_text envelope [] = none
first_bad_text envelope (field ∷ fields) =
    let rest = first_bad_text envelope fields in
    if is_full_text (get field envelope) then rest else some field

abbrev pub is_mapping : Value → Bool
is_mapping (obj _) = true
is_mapping _ = false

abbrev pub join : List String → String
join [] = ""
join (s ∷ []) = s
join (s ∷ t ∷ ts) = s +++ ", " +++ join (t ∷ ts)

-- The bytes of the text that `json.dumps` makes of a message.
module _ (encoded_size : Dict String Value → ℕ) where
  -- `validate_common_envelope`; the result is the error's message, where it does not name the limit
  unfoldable pub validate_common_envelope : Dict String Value → ℤ → Option String
  validate_common_envelope envelope limit = elim (missing_in envelope common_envelope_fields) [
    | field ∷ fields ↦ some ("missing CommonEnvelope field(s): " +++ join (field ∷ fields))
    | [] ↦ elim (first_bad_text envelope text_fields) [
      | some field ↦ some (field +++ " must be a non-empty string")
      | none ↦
          if not (is_mapping (get "payload" envelope))
          then some "payload must be a JSON object"
          else if ltb_ℤ limit (pos (encoded_size envelope))
          then some "CommonEnvelope exceeds its maximum size"
          else none
    ]
  ]
