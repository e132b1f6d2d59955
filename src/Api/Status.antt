-- ===== src/Api/Status.antt =====
-- api/groups/statusGroup.go: the two endpoints that show the metrics.
use mx_chain_notifier_go.Base.{ℕ, List, Option, GoString}
use mx_chain_notifier_go.Errors.{Result, ok, ◌>>=◌}
use mx_chain_notifier_go.Metrics.{EndpointMetricsResponse}
use mx_chain_notifier_go.Metrics.Prometheus.{MetricFamily}
use mx_chain_notifier_go.Process.EventsHandler.{World}
use mx_chain_notifier_go.Facade.{facade_metrics, facade_metrics_for_prometheus}

module _ {R P : Type 0} where
  -- `getMetrics`: the status, and the map that gin encodes, whose pointers are read in the store.
  unfoldable pub get_metrics_endpoint :
      World R P → ℕ × List (GoString × ℕ) × List EndpointMetricsResponse
  unfolding facade_metrics
  get_metrics_endpoint w = (200, facade_metrics w, w.metrics.store)

  -- `getPrometheusMetrics`: the status and the text.
  unfoldable pub get_prometheus_metrics_endpoint :
      {F : Type 0}
      → (ℕ → F)
      → (MetricFamily F → Option GoString)
      → (List (GoString × ℕ) → List (GoString × ℕ))
      → World R P
      → Result (ℕ × GoString)
  unfolding facade_metrics_for_prometheus
  get_prometheus_metrics_endpoint float64 metric_family_to_text order w = do
    metrics_results ← facade_metrics_for_prometheus float64 metric_family_to_text order w
    ok (200, metrics_results)
