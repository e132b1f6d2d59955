-- ===== src/WebSocket.antt =====
-- dispatcher/ws: how a websocket connection becomes a dispatcher, what the dispatcher sends for each
-- call of the hub, and what it makes of the messages of its client.
pub mod Types
pub mod Pumps
pub mod Sessions
use mx_chain_notifier_go.Base.{
  ℕ, List, [], ◌∷◌, Option, none, some, GoString, Bytes, codes, ◌||◌, ◌==◌, leb, replace_byte,
  trim_space,
}
use mx_chain_notifier_go.Errors.{
  Result, ok, err, panicked, require, refuse_if, ◌>>=◌, ◌>>◌, GoError, external, nil_dispatcher,
  nil_ws_conn, nil_ws_upgrader, nil_marshaller,
}
use mx_chain_notifier_go.Common.{
  push_logs_and_events, block_events, revert_block_events, finalized_block_events, block_txs,
  block_scrs,
}
use mx_chain_notifier_go.Data.{
  Ref, Event, RevertBlock, FinalizedBlock, BlockTxs, BlockScrs, BlockEventsWithOrder,
  SubscribeEvent, WebSocketEvent,
}
use mx_chain_notifier_go.Hub.{
  Delivery, push_events, revert_event, finalized_event, txs_event, events_with_order, scrs_event,
  EventDispatcher, CommonHub, subscribe, register_dispatcher, unregister_dispatcher,
}

-- marshal.Marshalizer at the types that it is called at.
pub record SocketMarshaller : Type 0 where
  pub marshal_delivery : Delivery → Bytes × Option GoError
  pub marshal_event : WebSocketEvent → Bytes × Option GoError
  pub unmarshal_subscribe : Bytes → SubscribeEvent × Option GoError

-- websocketDispatcher: its id, its connection and its marshaller; the send channel is with the pumps.
pub record WebsocketDispatcher : Type 0 where
  pub id : ℕ
  pub conn : Ref
  pub marshaller : SocketMarshaller

-- `newWebSocketDispatcher`, with the id that uuid.New gives.
unfoldable pub new_websocket_dispatcher :
    {D : Type 0} → Option D → Option Ref → Option SocketMarshaller → ℕ → Result WebsocketDispatcher
new_websocket_dispatcher dispatcher conn marshaller id = do
  d ← require dispatcher nil_dispatcher
  c ← require conn nil_ws_conn
  m ← require marshaller nil_marshaller
  ok (record { id = id; conn = c; marshaller = m })

-- `bytes.TrimSpace(bytes.Replace(msg, newline, space, -1))`
unfoldable pub cleaned : Bytes → Bytes
unfolding replace_byte trim_space
cleaned msg = trim_space (replace_byte b'\n' b' ' msg)

module _ (wd : WebsocketDispatcher) where
  -- What the six methods share: the bytes for the send channel, or none after an error.
  unfoldable pub marshalled_as : GoString → Delivery → Option Bytes
  marshalled_as type x =
      let (event_bytes, e) = wd.marshaller.marshal_delivery x in
      elim e [
        | some error ↦ none
        | none ↦
            let (ws_event_bytes, e') =
              wd.marshaller.marshal_event (record { type = type; payload = event_bytes }) in
            elim e' [ some error' ↦ none | none ↦ some ws_event_bytes ]
      ]

  -- `PushEvents`, `RevertEvent`, `FinalizedEvent`, `TxsEvent`, `BlockEvents`, `ScrsEvent`
  unfoldable pub bytes_to_send : Delivery → Option Bytes
  unfolding marshalled_as
  bytes_to_send (push_events b) = marshalled_as push_logs_and_events (push_events b)
  bytes_to_send (revert_event b) = marshalled_as revert_block_events (revert_event b)
  bytes_to_send (finalized_event b) = marshalled_as finalized_block_events (finalized_event b)
  bytes_to_send (txs_event b) = marshalled_as block_txs (txs_event b)
  bytes_to_send (events_with_order b) = marshalled_as block_events (events_with_order b)
  bytes_to_send (scrs_event b) = marshalled_as block_scrs (scrs_event b)

  -- `trySendSubscribeEvent`
  unfoldable pub try_send_subscribe_event : Bytes → CommonHub → CommonHub
  try_send_subscribe_event event_bytes h =
      let (event, e) = wd.marshaller.unmarshal_subscribe event_bytes in
      elim e [ some error ↦ h | none ↦ subscribe (record event { dispatcher_id = wd.id }) h ]

  -- The loop of `readPump`, over the messages that it reads until reading fails.
  unfoldable pub client_messages : List Bytes → CommonHub → CommonHub
  unfolding try_send_subscribe_event
  client_messages [] h = h
  client_messages (msg ∷ msgs) h = client_messages msgs (try_send_subscribe_event (cleaned msg) h)

  -- The dispatcher as the hub knows it: its connection tells which object it is.
  abbrev pub as_event_dispatcher : EventDispatcher
  as_event_dispatcher = record { id = wd.id; object = wd.conn }

  -- `readPump`, up to its removal from the hub. An error of a read limit is only logged.
  unfoldable pub read_pump : List Bytes → CommonHub → CommonHub
  unfolding client_messages
  read_pump msgs h = unregister_dispatcher as_event_dispatcher (client_messages msgs h)

-- websocketProcessor, whose dispatcher is the hub and whose upgrader is a parameter of `ServeHTTP`.
pub record WebsocketProcessor : Type 0 where
  pub marshaller : SocketMarshaller

-- `NewWebSocketProcessor` with its `checkArgs`.
unfoldable pub new_websocket_processor :
    {D U : Type 0} → Option D → Option U → Option SocketMarshaller → Result WebsocketProcessor
new_websocket_processor dispatcher upgrader marshaller = do
  d ← require dispatcher nil_dispatcher
  u ← require upgrader nil_ws_upgrader
  m ← require marshaller nil_marshaller
  ok (record { marshaller = m })

-- `ServeHTTP`, up to the start of the pumps: given what the upgrade returns and the id that uuid.New
-- gives, the dispatcher whose pumps are started, if any.
unfoldable pub serve_http :
    WebsocketProcessor
    → Option Ref × Option GoError
    → ℕ
    → CommonHub
    → Option WebsocketDispatcher × CommonHub
unfolding new_websocket_dispatcher
serve_http wh (conn, some e) id h = (none, h)
serve_http wh (conn, none) id h =
    elim (new_websocket_dispatcher (some h) conn (some wh.marshaller) id) [
      | err e ↦ (none, h)
      | panicked ↦ (none, h)
      | ok wd ↦ (some wd, register_dispatcher (as_event_dispatcher wd) h)
    ]
