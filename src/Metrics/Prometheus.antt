-- ===== src/Metrics/Prometheus.antt =====
-- metrics/prometheusMetrics.go and GetMetricsForPrometheus of metrics/statusMetrics.go: the counters as
-- text. The encoder of the prometheus library and the conversion to float64 are parameters.
pub mod Reports
use mx_chain_notifier_go.Base.{
  ℕ, ◌-◌, ◌/◌, List, [], ◌∷◌, ◌++◌, Option, none, some, GoString, codes, ltb, if◌then◌else◌,
}
use mx_chain_notifier_go.Errors.{Result, ok, panicked, ◌>>=◌}
use mx_chain_notifier_go.Metrics.{EndpointMetricsResponse, u64, StatusMetrics, deref, get_all}

-- dto.MetricType, of which only the counter is used.
pub data MetricType : Type 0 where
  counter_type : MetricType

-- dto.Metric with its labels and its counter's value.
pub record Metric (F : Type 0) : Type 0 where
  pub label : List (GoString × GoString)
  pub counter : F

pub record MetricFamily (F : Type 0) : Type 0 where
  pub name : GoString
  pub metric_type : MetricType
  pub metric : List (Metric F)

-- `Duration.Milliseconds` of a duration kept as its 64-bit pattern, converted to uint64: the division
-- drops the fraction of a negative duration too.
unfoldable pub milliseconds : ℕ → ℕ
milliseconds d =
    if ltb d 9223372036854775808
    then d / 1000000
    else u64 (18446744073709551616 - (18446744073709551616 - d) / 1000000)

-- `float64(count)`, and what `expfmt.MetricFamilyToText` writes, or none on its error.
module _ {F : Type 0} (float64 : ℕ → F)
    (metric_family_to_text : MetricFamily F → Option GoString) where
  unfoldable pub prom_metric_as_string : MetricFamily F → GoString
  prom_metric_as_string metric = elim (metric_family_to_text metric) [
    | none ↦ []
    | some out ↦ out ++ 10 ∷ []
  ]

  unfoldable pub requests_counter_metric : GoString → GoString → ℕ → GoString
  unfolding prom_metric_as_string
  requests_counter_metric metric_name endpoint count = prom_metric_as_string (record {
    name = metric_name;
    metric_type = counter_type;
    metric = record { label = (codes "operation", endpoint) ∷ []; counter = float64 count } ∷ [];
  })

  -- The two blocks that the loop writes for an endpoint.
  unfoldable pub endpoint_text : GoString → EndpointMetricsResponse → GoString
  unfolding requests_counter_metric milliseconds
  endpoint_text endpoint_path endpoint_data =
      requests_counter_metric (codes "num_requests") endpoint_path endpoint_data.num_requests
      ++ requests_counter_metric (codes "total_response_time") endpoint_path
          (milliseconds endpoint_data.total_response_time)

  -- The loop over the entries of the map; reading through an address that holds no struct panics.
  unfoldable pub endpoints_text :
      List (GoString × ℕ) → List EndpointMetricsResponse → Result GoString
  unfolding endpoint_text deref
  endpoints_text [] store = ok []
  endpoints_text ((endpoint_path, p) ∷ entries) store = elim (deref store p) [
    | none ↦ panicked
    | some endpoint_data ↦ do
      rest ← endpoints_text entries store
      ok (endpoint_text endpoint_path endpoint_data ++ rest)
  ]

  -- `order` is the order in which the runtime walks the map.
  unfoldable pub get_metrics_for_prometheus :
      (List (GoString × ℕ) → List (GoString × ℕ)) → StatusMetrics → Result GoString
  unfolding endpoints_text get_all
  get_metrics_for_prometheus order sm = endpoints_text (order (get_all sm)) sm.store
