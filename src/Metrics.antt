-- ===== src/Metrics.antt =====
-- metrics/statusMetrics.go: the request counters, on a store of the structs that the map points to.
pub mod Store
pub mod Counts
pub mod Prometheus
use mx_chain_notifier_go.Base.{
  ℕ, zero, suc, ◌+◌, ◌%◌, ◌^◌, ◌≡◌, refl, List, [], ◌∷◌, ◌++◌, Option, none, some, arith, GoString,
  str_eq, str_eq_iff, str_eq_refl, if◌then◌else◌, lookup, insert, lookup-insert, string_eq,
  Bool-cases, inl, inr, ◌<◌, ◌≤◌, true, false, length, Bool, ==_iff, ◌==◌, ◌≢◌, Option-cases, ap,
  length-append,
}

-- data.EndpointMetricsResponse: a uint64 and a time.Duration, both kept modulo 2^64.
pub record EndpointMetricsResponse : Type 0 where
  pub num_requests : ℕ
  pub total_response_time : ℕ

abbrev pub u64 : ℕ → ℕ
u64 n = n % 18446744073709551616

-- `operation_metrics` maps a path to an address in `store`.
pub record StatusMetrics : Type 0 where
  pub operation_metrics : List (GoString × ℕ)
  pub store : List EndpointMetricsResponse

unfoldable pub new_status_metrics : StatusMetrics
new_status_metrics = record { operation_metrics = []; store = [] }

unfoldable pub deref : List EndpointMetricsResponse → ℕ → Option EndpointMetricsResponse
deref [] p = none
deref (r ∷ rs) zero = some r
deref (r ∷ rs) (suc p) = deref rs p

-- `currentData.NumRequests++; currentData.TotalResponseTime += duration`
unfoldable pub count_request : List EndpointMetricsResponse → ℕ → ℕ → List EndpointMetricsResponse
count_request [] p duration = []
count_request (r ∷ rs) zero duration =
    record r {
      num_requests = u64 (r.num_requests + 1);
      total_response_time = u64 (r.total_response_time + duration);
    }
    ∷ rs
count_request (r ∷ rs) (suc p) duration = r ∷ count_request rs p duration

unfoldable pub add_request : GoString → ℕ → StatusMetrics → StatusMetrics
add_request path duration sm = elim (lookup path sm.operation_metrics) [
  | none ↦ record {
    operation_metrics = insert path (length sm.store) sm.operation_metrics;
    store = sm.store ++ record { num_requests = 1; total_response_time = u64 duration } ∷ [];
  }
  | some p ↦ record sm { store = count_request sm.store p duration }
]

-- `GetAll` copies the map, and so the addresses.
unfoldable pub get_all : StatusMetrics → List (GoString × ℕ)
get_all sm = sm.operation_metrics

-- What a holder of such a map reads at a path, when the store is that of `sm`.
unfoldable pub read_at :
    List (GoString × ℕ) → StatusMetrics → GoString → Option EndpointMetricsResponse
read_at snapshot sm path = elim (lookup path snapshot) [ none ↦ none | some p ↦ deref sm.store p ]
