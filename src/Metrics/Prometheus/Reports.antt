-- ===== src/Metrics/Prometheus/Reports.antt =====
-- metrics/statusMetrics.go: the text for Prometheus against the log of the requests that were added.
use mathlib.Core.List.{
  Mem, Perm, eq-or-mem_of_mem-cons, not-mem-nil, mem-cons_self, mem-cons_of_mem,
}
use mathlib.Core.List.Perm
use mathlib.Core.Logic.{∥∥₁_elim}
use mx_chain_notifier_go.Base.{
  ℕ, ◌≡◌, refl, ◌∙◌, ap, subst, List, [], ◌∷◌, ◌++◌, map, Option, some, arith, GoString, codes,
  str_eq, str_eq_iff, if◌then◌else◌, lookup, insert, string_eq, Unique, Unique-insert, length,
  Option-cases, inl, inr,
}
use mx_chain_notifier_go.Errors.{ok}
use mx_chain_notifier_go.Metrics.{
  EndpointMetricsResponse, u64, StatusMetrics, new_status_metrics, deref, add_request, get_all,
  read_at,
}
use mx_chain_notifier_go.Metrics.Store.{deref-some}
use mx_chain_notifier_go.Metrics.Counts.{
  new-IsValid, Request, add_requests, durations, sum, totals, add_requests-IsValid,
  get_all-add_requests,
}
use mx_chain_notifier_go.Metrics.Prometheus.{
  MetricFamily, milliseconds, requests_counter_metric, endpoint_text, endpoints_text,
  get_metrics_for_prometheus,
}

-- The paths seen so far and one more, if it is new.
abbrev add_path : GoString → List GoString → List GoString
add_path path [] = path ∷ []
add_path path (seen ∷ paths) =
    let rest = add_path path paths in if str_eq seen path then path ∷ paths else seen ∷ rest

-- The paths of a log, each once, behind those seen so far.
abbrev pub requested : List Request → List GoString → List GoString
requested [] paths = paths
requested ((path, d) ∷ log) paths = requested log (add_path path paths)

abbrev key : GoString × ℕ → GoString
key (path, p) = path

keys-insert :
    (path : GoString) (p : ℕ) (m : List (GoString × ℕ))
    → map key (insert path p m) ≡ add_path path (map key m)
unfolding insert
keys-insert path p [] = refl
keys-insert path p ((q, a) ∷ m) = ground (arith, keys-insert path p m)

keys-present :
    (path : GoString) (m : List (GoString × ℕ)) {p : ℕ}
    → lookup path m ≡ some p
    → add_path path (map key m) ≡ map key m
unfolding lookup
keys-present path [] h = cc
keys-present path ((q, a) ∷ m) {p} h =
    ground (arith, str_eq_iff q path, keys-present path m {p = p})

keys-add_request :
    (path : GoString) (d : ℕ) (sm : StatusMetrics)
    → map key (get_all (add_request path d sm)) ≡ add_path path (map key (get_all sm))
unfolding add_request get_all
keys-add_request path d sm = elim (Option-cases (lookup path sm.operation_metrics)) [
  | inl e ↦ ground (arith, e, keys-insert path (length sm.store) sm.operation_metrics)
  | inr (p, e) ↦ ground (arith, e, keys-present path sm.operation_metrics e)
]

keys-add_requests :
    (log : List Request) (sm : StatusMetrics)
    → map key (get_all (add_requests log sm)) ≡ requested log (map key (get_all sm))
keys-add_requests [] sm = refl
keys-add_requests ((path, d) ∷ log) sm =
    keys-add_requests log (add_request path d sm) ∙ ap (requested log) (keys-add_request path d sm)

Unique-add_requests :
    (log : List Request) (sm : StatusMetrics)
    → Unique (get_all sm)
    → Unique (get_all (add_requests log sm))
unfolding add_request get_all
Unique-add_requests [] sm u = u
Unique-add_requests ((path, d) ∷ log) sm u =
    Unique-add_requests log (add_request path d sm)
      (elim (Option-cases (lookup path sm.operation_metrics)) [
        | inl e ↦ rw (e, add_request) (Unique-insert path (length sm.store) sm.operation_metrics u)
        | inr (p, e) ↦ rw (e, add_request) u
      ])

-- An entry of a map is found.
lookup-Mem :
    (m : List (GoString × ℕ)) (path : GoString) (p : ℕ)
    → Unique m
    → Mem (path, p) m
    → lookup path m ≡ some p
unfolding lookup
lookup-Mem [] path p u h = absurd (not-mem-nil h)
lookup-Mem ((q, a) ∷ m) path p u h = ∥∥₁_elim (eq-or-mem_of_mem-cons h) (hlevel) (elim [
  | inl e ↦ ground (arith, ap key e, ap (λ (x : GoString × ℕ). x.1) e, str_eq_iff q path)
  | inr rest ↦ ground (arith, lookup-Mem m path p u.1 rest, str_eq_iff q path)
])

module _ {F : Type 0} (float64 : ℕ → F)
    (metric_family_to_text : MetricFamily F → Option GoString) where
  -- The two blocks of a path that had requests of the given durations.
  abbrev pub path_report : GoString → List ℕ → GoString
  path_report path ds =
      requests_counter_metric float64 metric_family_to_text (codes "num_requests") path
        (u64 (length ds))
      ++ requests_counter_metric float64 metric_family_to_text (codes "total_response_time") path
          (milliseconds (u64 (sum ds)))

  -- The blocks of some paths, by the log of the requests.
  abbrev pub report : List Request → List GoString → GoString
  report log [] = []
  report log (path ∷ paths) = path_report path (durations path log) ++ report log paths

  -- A struct that holds the totals of some durations is written as their report.
  endpoint_text-totals :
      (path : GoString) (ds : List ℕ) {r : EndpointMetricsResponse}
      → totals ds ≡ some r
      → endpoint_text float64 metric_family_to_text path r ≡ path_report path ds
  unfolding endpoint_text
  endpoint_text-totals path [] h = cc
  endpoint_text-totals path (d ∷ ds) h = ground (arith, h)

  -- The loop over entries whose structs hold the totals of their paths writes the reports.
  endpoints_text-report :
      (log : List Request) (entries : List (GoString × ℕ)) (store : List EndpointMetricsResponse)
      → ((path : GoString) (p : ℕ)
          → Mem (path, p) entries
          → (r : EndpointMetricsResponse) × (deref store p ≡ some r)
            × (totals (durations path log) ≡ some r))
      → endpoints_text float64 metric_family_to_text entries store
        ≡ ok (report log (map key entries))
  unfolding endpoints_text
  endpoints_text-report log [] store h = refl
  endpoints_text-report log ((path, p) ∷ entries) store h =
      let (r, found, total) = h path p mem-cons_self in
      let rest =
        endpoints_text-report log entries store (λ q a m. h q a (mem-cons_of_mem (path, p) m)) in
      ground (arith, found, rest, endpoint_text-totals path (durations path log) total)

  -- After any run of `AddRequest` calls on a new instance, and in whatever order the runtime walks
  -- the map, `GetMetricsForPrometheus` writes two blocks for each path of the run, each path once:
  -- the number of its requests, and the sum of their durations in milliseconds, where both counters
  -- are kept modulo 2^64.
  pub get_metrics_for_prometheus-add_requests :
      (order : List (GoString × ℕ) → List (GoString × ℕ)) (log : List Request)
      → ((m : List (GoString × ℕ)) → Perm (order m) m)
      → (paths : List GoString) × Perm paths (requested log [])
        × (get_metrics_for_prometheus float64 metric_family_to_text order
              (add_requests log new_status_metrics)
            ≡ ok (report log paths))
  unfolding get_metrics_for_prometheus new_status_metrics get_all read_at
  get_metrics_for_prometheus-add_requests order log h =
      let sm = add_requests log new_status_metrics in
      let entries = order (get_all sm) in
      (
        map key entries,
        subst (Perm (map key entries)) (keys-add_requests log new_status_metrics)
            (Perm.map key (h (get_all sm))),
        endpoints_text-report log entries sm.store λ path p m.
            let stored =
              lookup-Mem (get_all sm) path p (Unique-add_requests log new_status_metrics tt)
                (Perm.subset (h (get_all sm)) (path, p) m) in
            let (r, found) =
              deref-some sm.store p (
                (add_requests-IsValid log new_status_metrics new-IsValid).allocated path p
                  stored) in
            (r, found, ground (arith, stored, found, get_all-add_requests log path)),
      )
