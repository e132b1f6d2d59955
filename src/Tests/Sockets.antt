-- ===== src/Tests/Sockets.antt =====
-- A websocket dispatcher with the room of the code, and a client that names another dispatcher.
use mx_chain_notifier_go.Base.{◌≡◌, refl, [], ◌∷◌, none, some, false, codes, arith}
use mx_chain_notifier_go.Errors.{ok}
use mx_chain_notifier_go.Data.{Message}
use mx_chain_notifier_go.Dispatcher.{new_subscription_mapper}
use mx_chain_notifier_go.Filters.{match_event}
use mx_chain_notifier_go.Hub.{CommonHub, new_common_hub}
use mx_chain_notifier_go.Hub.Subscribers.{IsValid, calls_to}
use mx_chain_notifier_go.Hub.Lifecycle.{publish_message, registers, run, run-IsValid}
use mx_chain_notifier_go.WebSocket.{SocketMarshaller, WebsocketDispatcher, client_messages}
use mx_chain_notifier_go.WebSocket.Sessions.{client_messages-others}
use mx_chain_notifier_go.WebSocket.Pumps.{
  Publication, Session, connected, PumpStep, calls, sends, PumpSteps, start, next,
}
use mx_chain_notifier_go.WebSocket.Pumps.Safety.{sending_lem}
use mx_chain_notifier_go.WebSocket.Pumps.Deadlock.{stuck, stuck_lem}

-- Every message of the client asks for all events in the name of dispatcher 2.
abbrev pub marshaller : SocketMarshaller
marshaller = record {
  marshal_delivery = λ x. (1 ∷ [], none);
  marshal_event = λ x. (2 ∷ [], none);
  unmarshal_subscribe = λ x. (record { dispatcher_id = 2; subscription_entries = [] }, none);
}

abbrev intruder : WebsocketDispatcher
intruder = record { id = 1; conn = 3; marshaller = marshaller }

abbrev empty_hub : CommonHub
empty_hub = record {
  filter = match_event;
  subscription_mapper = new_subscription_mapper;
  dispatchers = [];
}

abbrev socket_hub : CommonHub
socket_hub =
    run
      (registers (record { id = 1; object = 10 }) ∷ registers (record { id = 2; object = 20 }) ∷ [])
      empty_hub

made_hub : new_common_hub (some match_event) (some new_subscription_mapper) ≡ ok empty_hub
unfolding new_common_hub
made_hub = refl

socket_hub-IsValid : IsValid socket_hub
socket_hub-IsValid =
    run-IsValid match_event
      (registers (record { id = 1; object = 10 }) ∷ registers (record { id = 2; object = 20 }) ∷ [])
      {h = empty_hub} made_hub

client_messages-others_example :
    calls_to 2 (
      publish_message
        (Message.finalized (record { hash = codes "ab" }))
        (client_messages intruder ((9 ∷ []) ∷ (8 ∷ []) ∷ []) socket_hub))
    ≡ calls_to 2 (publish_message (Message.finalized (record { hash = codes "ab" })) socket_hub)
client_messages-others_example =
    client_messages-others intruder 2 ((9 ∷ []) ∷ (8 ∷ []) ∷ [])
      (Message.finalized (record { hash = codes "ab" })) socket_hub (λ e. absurd (omega (arith, e)))
      socket_hub-IsValid

-- A client with the id 7 connects, sends two messages and is gone.
abbrev guest : WebsocketDispatcher
guest = record { id = 7; conn = 9; marshaller = marshaller }

abbrev joined_hub : CommonHub
joined_hub = run (registers (record { id = 7; object = 9 }) ∷ []) socket_hub

abbrev in_call : Session
in_call = record connected { queued = 1; publication = Publication.sending }

to_in_call : PumpSteps 256 connected in_call
to_in_call =
    next (next (next start (calls refl refl)) (sends refl refl (omega arith))) (calls refl refl)

sending_lem_example : in_call.send_closed ≡ false
sending_lem_example = sending_lem 256 {s = in_call} to_in_call refl

stuck_lem_example :
    PumpSteps 256 connected (stuck 256) × ((s : Session) → PumpStep 256 (stuck 256) s → ⊥)
stuck_lem_example = stuck_lem 256
