-- ===== src/Tests/Endpoints.antt =====
-- A block of version 1 pushed over HTTP, to a lock service that fails twice.
use mx_chain_notifier_go.Base.{
  ◌≡◌, refl, List, [], ◌∷◌, true, false, some, codes, arith, encode_to_string, string_eq,
}
use mx_chain_notifier_go.Errors.{Result, ok}
use mx_chain_notifier_go.Data.{Message}
use mx_chain_notifier_go.Process.EventsHandler.{World}
use mx_chain_notifier_go.Process.EventsHandler.Outcomes.{checked, block_outcome}
use mx_chain_notifier_go.Process.Preprocess.{new_base_events_pre_processor}
use mx_chain_notifier_go.Process.Preprocess.VersionZero.{events_pre_processor_v0}
use mx_chain_notifier_go.Process.Preprocess.VersionOne.{events_pre_processor_v1}
use mx_chain_notifier_go.Process.PayloadHandler.{DataProcessors, new_payload_handler}
use mx_chain_notifier_go.Facade.{
  NotifierFacade, events_facade, create_events_data_pre_processors, create_payload_handler,
}
use mx_chain_notifier_go.Api.{
  push_events_endpoint, get_payload_version, atoi, magnitude, digits_value,
}
use mx_chain_notifier_go.Api.Endpoints.{response_to, push_events_endpoint-block_outcome}
use mx_chain_notifier_go.Api.Versions.{
  digits_of, sprint_version, get_payload_version-sprint_version,
}
use mx_chain_notifier_go.Tests.Fixtures.{Server, handler, start, clock}
use mx_chain_notifier_go.Tests.Payloads.{marshaller, topics, topics_differ, new_args, decodes_new}
use mx_chain_notifier_go.Tests.Handler.{two_failures}

abbrev pub notifier : NotifierFacade Server (List Message)
notifier = record {
  config = record { enabled = true; host = codes "5000"; username = []; password = [] };
  events_handler = handler;
  ws_handler = 1;
}

abbrev processors : DataProcessors (World Server (List Message))
processors =
    (
      0,
      events_pre_processor_v0
          (record { marshaller = marshaller; facade = events_facade clock notifier 3 }),
    )
    ∷ (
      1,
      events_pre_processor_v1
          (record { marshaller = marshaller; facade = events_facade clock notifier 3 }),
    )
    ∷ []

made :
    create_payload_handler (some marshaller) (some (events_facade clock notifier 3)) ≡ ok processors
unfolding create_payload_handler create_events_data_pre_processors new_payload_handler
    new_base_events_pre_processor
made = refl

version_one : get_payload_version (codes "1") ≡ 1
unfolding get_payload_version atoi magnitude digits_value
version_one = refl

-- The number is cut to 32 bits, and what is no number is version 0.
cut_version : get_payload_version (codes "-4294967295") ≡ 1
unfolding get_payload_version atoi magnitude digits_value
cut_version = refl

default_version : get_payload_version (codes "v2") ≡ 0
unfolding get_payload_version atoi magnitude digits_value
default_version = refl

push_events_endpoint-block_outcome_example :
    (result : Result (Unit {0})) × (w' : World Server (List Message)) × (push_events_endpoint
        processors topics
        (ok [])
        (codes "1")
        start
      ≡ some (response_to result, w'))
    × ((result, w'.outbox)
        ≡ block_outcome handler.publisher (handler.events_interceptor (some new_args)) start.outbox)
    × (w'.lock ≡ record { outages = 0; lossy = false; keys = encode_to_string (171 ∷ 7 ∷ []) ∷ [] })
push_events_endpoint-block_outcome_example =
    push_events_endpoint-block_outcome clock notifier 3 marshaller processors topics [] (codes "1")
      new_args start topics_differ made version_one decodes_new
      (checked refl (two_failures (encode_to_string (171 ∷ 7 ∷ [])))) (omega arith)

get_payload_version-sprint_version_example :
    get_payload_version (sprint_version 4294967295) ≡ 4294967295
get_payload_version-sprint_version_example =
    get_payload_version-sprint_version 4294967295 (omega arith)

printed : sprint_version 1024 ≡ codes "1024"
unfolding sprint_version digits_of
printed = refl
