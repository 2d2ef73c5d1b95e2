-- ===== src/Simulator/Counts.antt =====
-- The counts of a protocol: what they are when all went well, and what one emission does to them.
use hpa_with_bmad.Base.{
  ℕ, suc, ◌+◌, ◌*◌, ◌≤◌, Bool, true, Option, none, some, List, [], ◌∷◌, string_eq, if◌then◌else◌,
  String, map, length, length-append, All, ◌≡◌, ◌≢◌, refl, arith,
}
use native.Mathlib.Nat.{suc-mul}
use hpa_with_bmad.Simulator.{Failure, config_error, schema_error, protocol_error, crash}
use hpa_with_bmad.Simulator.Emit.{
  Emission, sent, idle, connection_failure, protocol_failure, uncaught,
}
use hpa_with_bmad.Simulator.Run.{ProtocolResult, total, settle}

abbrev pub protocols : List ProtocolResult → List String
protocols rs = map (λ r. r.protocol) rs

pub settle-protocol : (x : Emission) (r : ProtocolResult) → (settle x r).0.protocol ≡ r.protocol
settle-protocol (sent ms) r = refl
settle-protocol idle r = refl
settle-protocol connection_failure r = refl
settle-protocol protocol_failure r = refl
settle-protocol uncaught r = refl

-- The counts of one protocol after so many messages without a failure.
pub record IsExact (live : Bool) (n : ℕ) (r : ProtocolResult) : Type 0 where
  pub planned : r.planned ≡ n
  pub accepted : r.accepted ≡ (if live then n else 0)
  pub timed : length r.latencies_ms ≡ r.accepted
  pub rejected : r.rejected ≡ 0
  pub connected : r.connection_failures ≡ 0
  pub well_formed : r.schema_failures ≡ 0
  pub delivered : r.protocol_failures ≡ 0

-- All that can go wrong, as `to_summary` adds it up.
abbrev pub errors : List ProtocolResult → ℕ
errors rs =
    total (λ r. r.rejected) rs
    + total (λ r. r.connection_failures) rs
    + total (λ r. r.protocol_failures) rs
    + total (λ r. r.schema_failures) rs

-- A loop that ends early with an error that is reported has counted it.
unfoldable pub HasCause : List ProtocolResult → Option Failure → Type 0
HasCause rs none = Unit
HasCause rs (some crash) = Unit
HasCause rs (some (config_error _)) = 1 ≤ errors rs
HasCause rs (some (schema_error _)) = 1 ≤ errors rs
HasCause rs (some protocol_error) = 1 ≤ errors rs

pub totals_lem :
    (live : Bool) (n : ℕ) (rs : List ProtocolResult)
    → All (IsExact live n) rs
    → (errors rs ≡ 0)
      × (total (λ r. r.planned) rs ≡ length rs * n)
      × (total (λ r. r.accepted) rs ≡ length rs * (if live then n else 0))
totals_lem live n [] h = (refl, omega arith, omega arith)
totals_lem live n (r ∷ rs) (h, hs) =
    let (no_errors, planned, accepted) = totals_lem live n rs hs in
    (
      omega (arith, h, no_errors),
      omega (arith, h, planned, suc-mul (length rs) n),
      omega (arith, h, accepted, suc-mul (length rs) (if live then n else 0)),
    )

pub settle-HasCause :
    (x : Emission) (r : ProtocolResult) (rs : List ProtocolResult)
    → HasCause ((settle x r).0 ∷ rs) (settle x r).1
unfolding HasCause
settle-HasCause (sent ms) r rs = tt
settle-HasCause idle r rs = tt
settle-HasCause connection_failure r rs = omega arith
settle-HasCause protocol_failure r rs = omega arith
settle-HasCause uncaught r rs = tt

pub HasCause-cons :
    (r : ProtocolResult) (rs : List ProtocolResult) (stop : Option Failure)
    → HasCause rs stop
    → HasCause (r ∷ rs) stop
unfolding HasCause
HasCause-cons r rs none h = tt
HasCause-cons r rs (some crash) h = tt
HasCause-cons r rs (some (config_error _)) h = omega (arith, h)
HasCause-cons r rs (some (schema_error _)) h = omega (arith, h)
HasCause-cons r rs (some protocol_error) h = omega (arith, h)

pub settle-IsExact :
    (x : Emission) (r : ProtocolResult) (n : ℕ)
    → x ≢ idle
    → IsExact true n r
    → (settle x (record r { planned = suc r.planned })).1 ≡ none
    → IsExact true (suc n) (settle x (record r { planned = suc r.planned })).0
settle-IsExact (sent ms) r n ne h done = record {
  planned = ground (arith, h);
  accepted = ground (arith, h);
  timed = rw (length-append r.latencies_ms (ms ∷ [])) (ground (arith, h));
  rejected = h.rejected;
  connected = h.connected;
  well_formed = h.well_formed;
  delivered = h.delivered;
}
settle-IsExact idle r n ne h done = absurd (ne refl)
settle-IsExact connection_failure r n ne h done = cc
settle-IsExact protocol_failure r n ne h done = cc
settle-IsExact uncaught r n ne h done = cc
