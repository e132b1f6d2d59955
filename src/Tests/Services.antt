-- ===== src/Tests/Services.antt =====
-- The request counters and the lock service's time to live.
use mathlib.Core.List.{Perm, reverse, reverse_perm}
use mx_chain_notifier_go.Base.{
  ℕ, ◌++◌, Option, map, GoString, ◌≡◌, refl, List, [], ◌∷◌, some, codes, str_eq, lookup, insert,
  string_eq,
}
use mx_chain_notifier_go.Metrics.{
  StatusMetrics, new_status_metrics, add_request, get_all, read_at, deref,
}
use mx_chain_notifier_go.Metrics.Counts.{Request, add_requests, totals, durations}
use mx_chain_notifier_go.Metrics.Prometheus.{MetricFamily, milliseconds, get_metrics_for_prometheus}
use mx_chain_notifier_go.Metrics.Prometheus.Reports.{
  requested, report, get_metrics_for_prometheus-add_requests,
}
use mx_chain_notifier_go.Errors.{ok}
use mx_chain_notifier_go.Process.EventsHandler.LockLaws.{LockLaws}

abbrev requests : List Request
requests = (codes "revert", 40) ∷ (codes "push", 5) ∷ (codes "revert", 2) ∷ []

two_reverts :
    totals (durations (codes "revert") requests)
    ≡ some (record { num_requests = 2; total_response_time = 42 })
unfolding str_eq
two_reverts = refl

-- A text of its own for each family, and an order that turns the map round.
abbrev text_of : MetricFamily ℕ → Option GoString
text_of family = some (family.name ++ map (λ m. m.counter) family.metric)

get_metrics_for_prometheus-add_requests_example :
    (paths : List GoString) × Perm paths (requested requests [])
    × (get_metrics_for_prometheus
          (λ n. n)
          text_of
          reverse
          (add_requests requests new_status_metrics)
        ≡ ok (report (λ n. n) text_of requests paths))
get_metrics_for_prometheus-add_requests_example =
    get_metrics_for_prometheus-add_requests (λ n. n) text_of reverse requests reverse_perm

-- What the repository's own test expects of 26 milliseconds, and a negative duration.
milliseconds_of_test : milliseconds 26_000_000 ≡ 26
unfolding milliseconds
milliseconds_of_test = refl

milliseconds_negative : milliseconds 18446744073708051616 ≡ 18446744073709551615
unfolding milliseconds
milliseconds_negative = refl

abbrev one_push : StatusMetrics
one_push = add_request (codes "push") 5 new_status_metrics

reads_one :
    read_at (get_all one_push) one_push (codes "push")
    ≡ some (record { num_requests = 1; total_response_time = 5 })
unfolding read_at get_all add_request new_status_metrics deref lookup insert str_eq
reads_one = refl
