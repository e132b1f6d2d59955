-- ===== src/Api/Endpoints.antt =====
-- api/groups/eventsGroup.go down to process/eventsHandler.go: what a pushed block comes to.
use mx_chain_notifier_go.Base.{
  ℕ, ◌<◌, ◌≡◌, ◌∙◌, Bool, encode_to_string, Option, some, GoString, Bytes, arith, ◌==◌, ==_iff,
  if◌then◌else◌, lookup, nat_eq, string_eq, Unique,
}
use mx_chain_notifier_go.Errors.{Result, ok, err, panicked, invalid_payload_type}
use mx_chain_notifier_go.Common.{payload_v0, payload_v1}
use mx_chain_notifier_go.Data.{ArgsSaveBlockData}
use mx_chain_notifier_go.Process.EventsHandler.{World}
use mx_chain_notifier_go.Process.EventsHandler.Outcomes.{
  Verdict, block_outcome, handle_save_block_events_lem,
}
use mx_chain_notifier_go.Process.Preprocess.{
  Marshaller, EventsFacade, push_decoded, new_base_events_pre_processor,
}
use mx_chain_notifier_go.Process.Preprocess.VersionZero.{decode_block_v0, events_pre_processor_v0}
use mx_chain_notifier_go.Process.Preprocess.VersionOne.{decode_block_v1, events_pre_processor_v1}
use mx_chain_notifier_go.Process.PayloadHandler.{Topics, DataProcessors, actions}
use mx_chain_notifier_go.Process.PayloadHandler.Dispatch.{process_payload_lem}
use mx_chain_notifier_go.Facade.{
  NotifierFacade, events_facade, create_events_data_pre_processors, create_payload_handler,
}
use mx_chain_notifier_go.Api.{
  Response, status_ok, bad_request, respond, get_payload_version, handle_events,
  push_events_endpoint,
}

-- The response to a pushed block of a version: it is decoded by that version and handed to the facade.
abbrev pub pushed :
    {W : Type 0} → Marshaller → EventsFacade W → ℕ → Bytes → W → Option (Result Response × W)
pushed m facade version bytes w =
    if version == payload_v0
    then respond (push_decoded facade (decode_block_v0 m bytes) w)
    else if version == payload_v1
    then respond (push_decoded facade (decode_block_v1 m bytes) w)
    else some (ok (bad_request invalid_payload_type), w)

-- With the payload handler that the factory makes and distinct topics, the push endpoint decodes its
-- data by version 0 if the header's number is 0 modulo 2^32 or is no number, and by version 1 if it
-- is 1 modulo 2^32; it hands the block to the facade and responds by the result. Any other version
-- gets status 400 without an effect.
push_events_endpoint_lem :
    {W : Type 0} (m : Marshaller) (facade : EventsFacade W) (ps : DataProcessors W) (t : Topics)
    (bytes : Bytes) (header : GoString) (w : W)
    → Unique (actions t)
    → create_payload_handler (some m) (some facade) ≡ ok ps
    → push_events_endpoint ps t (ok bytes) header w
      ≡ pushed m facade (get_payload_version header) bytes w
unfolding push_events_endpoint handle_events create_payload_handler
    create_events_data_pre_processors new_base_events_pre_processor events_pre_processor_v0
    events_pre_processor_v1 lookup
push_events_endpoint_lem m facade ps t bytes header w distinct made =
    let version = get_payload_version header in
    let save = (process_payload_lem ps t distinct bytes version w).0 in
    ground (arith, save, made, ==_iff version payload_v0, ==_iff version payload_v1)

-- The response to a result of the events handler.
abbrev pub response_to : Result (Unit {0}) → Result Response
response_to (ok u) = ok status_ok
response_to (err e) = ok (bad_request e)
response_to panicked = panicked

pushed-handed_on :
    {W : Type 0} (m : Marshaller) (facade : EventsFacade W) (version : ℕ) (bytes : Bytes)
    (args : ArgsSaveBlockData) (w : W) (result : Result (Unit {0})) (w' : W)
    → version ≡ payload_v1
    → decode_block_v1 m bytes ≡ ok args
    → facade.handle_push_events args w ≡ some (result, w')
    → pushed m facade version bytes w ≡ some (response_to result, w')
unfolding push_decoded
pushed-handed_on m facade version bytes args w (ok u) w' one decoded found =
    ground (arith, one, decoded, found)
pushed-handed_on m facade version bytes args w (err e) w' one decoded found =
    ground (arith, one, decoded, found)
pushed-handed_on m facade version bytes args w panicked w' one decoded found =
    ground (arith, one, decoded, found)

-- A block that version 1 decodes and whose version header is 1 modulo 2^32, pushed to the endpoint of
-- a notifier with the given events handler, with fuel above the failures of the lock service: a
-- duplicate gets status 200 and sends nothing; any other block gets status 400 with the interceptor's
-- error and sends nothing, or status 200 after its four messages were sent in order.
pub push_events_endpoint-block_outcome :
    {R P : Type 0} (clock : ℕ → ℕ) (nf : NotifierFacade R P) (fuel : ℕ) (m : Marshaller)
    (ps : DataProcessors (World R P)) (t : Topics) (bytes : Bytes) (header : GoString)
    (args : ArgsSaveBlockData) (w : World R P) {n : ℕ} {b : Bool} {r' : R}
    → Unique (actions t)
    → create_payload_handler (some m) (some (events_facade clock nf fuel)) ≡ ok ps
    → get_payload_version header ≡ payload_v1
    → decode_block_v1 m bytes ≡ ok args
    → Verdict nf.events_handler (encode_to_string args.header_hash) w.lock n b r'
    → n < fuel
    → (result : Result (Unit {0})) × (w' : World R P) × (push_events_endpoint ps t
          (ok bytes)
          header
          w
        ≡ some (response_to result, w'))
      × ((result, w'.outbox) ≡ (
          if b
          then block_outcome nf.events_handler.publisher
              (nf.events_handler.events_interceptor (some args))
              w.outbox
          else (ok tt, w.outbox)))
      × (w'.lock ≡ r')
unfolding events_facade
push_events_endpoint-block_outcome clock nf fuel m ps t bytes header args w distinct made version
      decoded v h =
    let (result, w', found, outcome, lock) =
      handle_save_block_events_lem clock nf.events_handler fuel args w v h in
    (
      result,
      w',
      push_events_endpoint_lem m (events_facade clock nf fuel) ps t bytes header w distinct made
          ∙ pushed-handed_on m (events_facade clock nf fuel) (get_payload_version header) bytes args
              w result w' version decoded found,
      outcome,
      lock,
    )
