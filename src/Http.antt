-- ===== src/Http.antt =====
-- What the services of scripts/services see of `http.server`: a request after `urlparse` and
-- `parse_qs`, and the one reply that a handler sends.
use hpa_with_bmad.Base.{
  ℕ, ℤ, pos, String, Option, none, some, [], ◌∷◌, if◌then◌else◌, ◌==◌, string_eq, Dict, lookup,
  ltb_ℤ, eqb_ℤ, ◌+++◌,
}
use hpa_with_bmad.Json.{Value, null, bool, num, str, arr, obj, object, entries, as_object}
use hpa_with_bmad.Json.Number.{int_of_text}

-- The outcome of `json.loads` on the bytes of a request's body; `malformed` holds the text of the
-- JSONDecodeError.
pub data Body : Type 0 where
  malformed : String → Body
  document : Value → Body

-- `query` has the pairs that `parse_qs` keeps; the headers are named as the source spells them.
pub record Request : Type 0 where
  pub path : String
  pub query : Dict String String
  pub headers : Dict String String
  pub body : Body

-- `aborted`: an exception that the handler does not catch. The client gets no reply.
pub data Response : Type 0 where
  json : ℕ → Value → Response
  empty : ℕ → Response
  text : ℕ → String → Response
  aborted : Response

abbrev pub header : Request → String → Option String
header req name = lookup name req.headers

-- `(query.get(name) or [None])[0]`
abbrev pub query_param : Request → String → Option String
query_param req name = lookup name req.query

-- What `_read_body` returns or raises: JSONDecodeError, or another ValueError.
pub data Reading : Type 0 where
  parsed : Value → Reading
  bad_json : String → Reading
  bad_value : String → Reading

abbrev pub no_content : String
no_content = "Expecting value: line 1 column 1 (char 0)"

abbrev pub loads : Body → Reading
loads (malformed message) = bad_json message
loads (document v) = parsed v

-- `int(self.headers.get("Content-Length", 0) or 0)`
unfoldable pub content_length : Request → Option ℤ
content_length req = elim (header req "Content-Length") [
  | none ↦ some (pos 0)
  | some s ↦ if s == "" then some (pos 0) else int_of_text s
]

-- The message of the ValueError, for a header whose `repr` has it between single quotes.
unfoldable pub int_message : Option String → String
int_message none = ""
int_message (some s) = "invalid literal for int() with base 10: '" +++ s +++ "'"

-- `_read_body` with a limit on the length: no byte is read where the length is 0.
unfoldable pub read_body : ℤ → Request → Reading
unfolding content_length
read_body limit req = elim (content_length req) [
  | none ↦ bad_value (int_message (header req "Content-Length"))
  | some n ↦
      if ltb_ℤ limit n
      then bad_value "payload too large"
      else if eqb_ℤ n (pos 0)
      then bad_json no_content
      else loads req.body
]

abbrev pub error_body : String → Value
error_body message = object (("error", str message) ∷ [])

abbrev pub failed : ℕ → String → Response
failed status message = json status (error_body message)

abbrev pub status_of : Response → Option ℕ
status_of (json n _) = some n
status_of (empty n) = some n
status_of (text n _) = some n
status_of aborted = none

-- Goes on with the value that was read; both exceptions are caught, and 400 is replied.
unfoldable pub on_reading {ℓ} : {S : Type ℓ} → Reading → S → (Value → Response × S) → Response × S
on_reading (parsed v) s k = k v
on_reading (bad_json m) s k = (failed 400 m, s)
on_reading (bad_value m) s k = (failed 400 m, s)

-- Reads the body under `except (json.JSONDecodeError, ValueError)`.
abbrev pub read_or_400 {ℓ} : {S : Type ℓ} → ℤ → Request → S → (Value → Response × S) → Response × S
read_or_400 limit req s k = on_reading (read_body limit req) s k

-- `v.get` raises on a value that is no dictionary.
unfoldable pub with_object {ℓ} :
    {S : Type ℓ} → Value → S → (Dict String Value → Response × S) → Response × S
with_object v s k = elim (as_object v) [ none ↦ (aborted, s) | some d ↦ k d ]

-- What holds of both replies that a failure gives, and of the continuation, holds of the whole.
module _ {ℓ κ} {S : Type ℓ} (P : Response × S → Type κ) (s : S) where
  pub on_reading_ind :
      (r : Reading) (k : Value → Response × S)
      → ((m : String) → P (failed 400 m, s))
      → ((v : Value) → P (k v))
      → P (on_reading r s k)
  unfolding on_reading
  on_reading_ind (parsed v) k f g = g v
  on_reading_ind (bad_json m) k f g = f m
  on_reading_ind (bad_value m) k f g = f m

  pub with_object_ind :
      (v : Value) (k : Dict String Value → Response × S)
      → P (aborted, s)
      → ((d : Dict String Value) → P (k d))
      → P (with_object v s k)
  unfolding with_object
  with_object_ind (obj fs) k a g = g (entries fs)
  with_object_ind null k a g = a
  with_object_ind (bool _) k a g = a
  with_object_ind (num _) k a g = a
  with_object_ind (str _) k a g = a
  with_object_ind (arr _) k a g = a
