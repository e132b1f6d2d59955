-- ===== src/Facade.antt =====
-- facade/notifierFacade.go and the payload handler of factory/processFactory.go: what puts the events
-- handler behind the preprocessors.
use mx_chain_notifier_go.Base.{ℕ, List, [], ◌∷◌, Option, GoString}
use mx_chain_notifier_go.Errors.{
  Result, ok, require, ◌>>=◌, nil_events_handler, nil_ws_handler, nil_status_metrics_handler,
}
use mx_chain_notifier_go.Common.{payload_v0, payload_v1}
use mx_chain_notifier_go.Config.{ConnectorApiConfig}
use mx_chain_notifier_go.Data.{Ref}
use mx_chain_notifier_go.Metrics.{get_all}
use mx_chain_notifier_go.Metrics.Prometheus.{MetricFamily, get_metrics_for_prometheus}
use mx_chain_notifier_go.Process.EventsHandler.{
  EventsHandler, World, handle_save_block_events, handle_revert_events, handle_finalized_events,
}
use mx_chain_notifier_go.Process.Preprocess.{
  Marshaller, EventsFacade, new_base_events_pre_processor,
}
use mx_chain_notifier_go.Process.Preprocess.VersionZero.{events_pre_processor_v0}
use mx_chain_notifier_go.Process.Preprocess.VersionOne.{events_pre_processor_v1}
use mx_chain_notifier_go.Process.PayloadHandler.{DataProcessors, new_payload_handler}

-- notifierFacade. The websocket handler is an object; the metrics are in the handler's World.
pub record NotifierFacade (R P : Type 0) : Type 0 where
  pub config : ConnectorApiConfig
  pub events_handler : EventsHandler R P
  pub ws_handler : Ref

module _ {R P : Type 0} where
  -- `NewNotifierFacade`
  unfoldable pub new_notifier_facade :
      ConnectorApiConfig
      → Option (EventsHandler R P)
      → Option Ref
      → Option Ref
      → Result (NotifierFacade R P)
  new_notifier_facade config events_handler ws_handler status_metrics = do
    eh ← require events_handler nil_events_handler
    ws ← require ws_handler nil_ws_handler
    m ← require status_metrics nil_status_metrics_handler
    ok (record { config = config; events_handler = eh; ws_handler = ws })

  unfoldable pub get_connector_user_and_pass : NotifierFacade R P → GoString × GoString
  get_connector_user_and_pass nf = (nf.config.username, nf.config.password)

  -- `HandlePushEvents`, `HandleRevertEvents`, `HandleFinalizedEvents`
  unfoldable pub events_facade : (ℕ → ℕ) → NotifierFacade R P → ℕ → EventsFacade (World R P)
  events_facade clock nf fuel = record {
    handle_push_events = handle_save_block_events clock nf.events_handler fuel;
    handle_revert_events = handle_revert_events clock nf.events_handler fuel;
    handle_finalized_events = handle_finalized_events clock nf.events_handler fuel;
  }

-- `GetMetrics` and `GetMetricsForPrometheus`: the runner gives the facade and the events handler the
-- same metrics.
module _ {R P : Type 0} where
  unfoldable pub facade_metrics : World R P → List (GoString × ℕ)
  unfolding get_all
  facade_metrics w = get_all w.metrics

  unfoldable pub facade_metrics_for_prometheus :
      {F : Type 0}
      → (ℕ → F)
      → (MetricFamily F → Option GoString)
      → (List (GoString × ℕ) → List (GoString × ℕ))
      → World R P
      → Result GoString
  unfolding get_metrics_for_prometheus
  facade_metrics_for_prometheus float64 metric_family_to_text order w =
      get_metrics_for_prometheus float64 metric_family_to_text order w.metrics

-- `createEventsDataPreProcessors`
unfoldable pub create_events_data_pre_processors :
    {W : Type 0} → Option Marshaller → Option (EventsFacade W) → Result (DataProcessors W)
create_events_data_pre_processors marshaller facade = do
  v0 ← new_base_events_pre_processor marshaller facade
  v1 ← new_base_events_pre_processor marshaller facade
  ok ((payload_v0, events_pre_processor_v0 v0) ∷ (payload_v1, events_pre_processor_v1 v1) ∷ [])

-- `CreatePayloadHandler`
unfoldable pub create_payload_handler :
    {W : Type 0} → Option Marshaller → Option (EventsFacade W) → Result (DataProcessors W)
unfolding create_events_data_pre_processors new_payload_handler
create_payload_handler marshaller facade = do
  data_pre_processors ← create_events_data_pre_processors marshaller facade
  new_payload_handler data_pre_processors
