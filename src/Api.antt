-- ===== src/Api.antt =====
-- api/groups/eventsGroup.go: the three endpoints of the HTTP connector.
pub mod Endpoints
pub mod Versions
pub mod Groups
pub mod Status
pub mod WebServer
use mx_chain_notifier_go.Base.{
  ℕ, ◌+◌, ◌*◌, ◌-◌, ◌%◌, List, [], ◌∷◌, Option, none, some, Bool, true, false, ◌&&◌, GoString,
  Bytes, ltb, leb, ◌==◌, if◌then◌else◌,
}
use mx_chain_notifier_go.Errors.{Result, ok, err, panicked, GoError}
use mx_chain_notifier_go.Common.{payload_v0}
use mx_chain_notifier_go.Process.PayloadHandler.{Topics, DataProcessors, process_payload}

abbrev pub is_digit : ℕ → Bool
is_digit c = leb 48 c && leb c 57

-- The value of a run of decimal digits behind those read so far.
unfoldable pub digits_value : ℕ → GoString → Option ℕ
digits_value n [] = some n
digits_value n (c ∷ s) =
    let rest = digits_value (10 * n + (c - 48)) s in if is_digit c then rest else none

-- A magnitude below a bound, of at least one digit.
unfoldable pub magnitude : ℕ → GoString → Option ℕ
unfolding digits_value
magnitude bound [] = none
magnitude bound (c ∷ s) = elim (digits_value 0 (c ∷ s)) [
  | none ↦ none
  | some n ↦ if ltb n bound then some n else none
]

-- `strconv.Atoi`, which gives an int as its 64-bit pattern.
unfoldable pub atoi : GoString → Option ℕ
unfolding magnitude
atoi [] = none
atoi (c ∷ s) =
    if c == 45
    then elim (magnitude 9223372036854775809 s) [
      | none ↦ none
      | some n ↦ some ((18446744073709551616 - n) % 18446744073709551616)
    ]
    else if c == 43
    then magnitude 9223372036854775808 s
    else magnitude 9223372036854775808 (c ∷ s)

-- `getPayloadVersion`, given the header's value.
unfoldable pub get_payload_version : GoString → ℕ
unfolding atoi
get_payload_version header = elim (atoi header) [
  | none ↦ payload_v0
  | some version ↦ version % 4294967296
]

-- The status and the error text of a JSON response.
pub record Response : Type 0 where
  pub status : ℕ
  pub error : Option GoError

abbrev pub status_ok : Response
status_ok = record { status = 200; error = none }

abbrev pub bad_request : GoError → Response
bad_request e = record { status = 400; error = some e }

-- The response to what `ProcessPayload` returned.
abbrev pub respond : {W : Type 0} → Option (Result (Unit {0}) × W) → Option (Result Response × W)
respond none = none
respond (some (ok u, w)) = some (ok status_ok, w)
respond (some (err e, w)) = some (ok (bad_request e), w)
respond (some (panicked, w)) = some (panicked, w)

module _ {W : Type 0} (payload_handler : DataProcessors W) (t : Topics) where
  -- The body that the three handlers share, but for the topic: the raw data of the request (or the
  -- error of reading it) and the value of its version header.
  unfoldable pub handle_events :
      GoString → Result Bytes → GoString → W → Option (Result Response × W)
  handle_events topic (err e) header w = some (ok (bad_request e), w)
  handle_events topic panicked header w = some (panicked, w)
  handle_events topic (ok raw_data) header w =
      respond (process_payload payload_handler t raw_data topic (get_payload_version header) w)

  unfoldable pub push_events_endpoint : Result Bytes → GoString → W → Option (Result Response × W)
  unfolding handle_events
  push_events_endpoint = handle_events t.save_block

  unfoldable pub revert_events_endpoint : Result Bytes → GoString → W → Option (Result Response × W)
  unfolding handle_events
  revert_events_endpoint = handle_events t.revert_indexed_block

  unfoldable pub finalized_events_endpoint :
      Result Bytes → GoString → W → Option (Result Response × W)
  unfolding handle_events
  finalized_events_endpoint = handle_events t.finalized_block
