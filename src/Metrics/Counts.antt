-- ===== src/Metrics/Counts.antt =====
-- metrics/statusMetrics.go: the counters against the log of the requests that were added.
use mx_chain_notifier_go.Base.{
  ℕ, ◌+◌, ◌<◌, ◌≡◌, refl, ◌∙◌, inl, inr, List, [], ◌∷◌, Option, none, some, arith, GoString, str_eq,
  str_eq_iff, if◌then◌else◌, lookup, lookup-insert, string_eq, Option-cases, length, length-append,
}
use mx_chain_notifier_go.Metrics.{
  EndpointMetricsResponse, u64, StatusMetrics, new_status_metrics, add_request, get_all, read_at,
}
use mx_chain_notifier_go.Metrics.Store.{
  bump, length-count_request, deref-count_request, deref-count_request_ne, deref-append_last,
  deref-append,
}

-- Every path has a struct of its own in the store.
pub record IsValid (sm : StatusMetrics) : Type 0 where
  pub allocated :
      (path : GoString) (p : ℕ) → lookup path sm.operation_metrics ≡ some p → p < length sm.store
  pub unshared :
      (path path' : GoString) (p : ℕ)
      → lookup path sm.operation_metrics ≡ some p
      → lookup path' sm.operation_metrics ≡ some p
      → path ≡ path'

pub new-IsValid : IsValid new_status_metrics
unfolding new_status_metrics lookup
new-IsValid = record { allocated = λ path p h. cc; unshared = λ path path' p h h'. cc }

module _ (path : GoString) (d : ℕ) (sm : StatusMetrics) (v : IsValid sm) where
  pub add_request-IsValid : IsValid (add_request path d sm)
  unfolding add_request
  add_request-IsValid = elim (Option-cases (lookup path sm.operation_metrics)) [
    | inl e ↦
        rw (e, add_request)
          (record {
            allocated = λ q p h. ground (
              arith,
              lookup-insert path q (length sm.store) sm.operation_metrics,
              v.allocated q p,
              length-append sm.store
                  (record { num_requests = 1; total_response_time = u64 d } ∷ []),
            );
            unshared = λ q q' p h h'. ground (
              arith,
              lookup-insert path q (length sm.store) sm.operation_metrics,
              lookup-insert path q' (length sm.store) sm.operation_metrics,
              v.allocated q p,
              v.allocated q' p,
              v.unshared q q' p,
              str_eq_iff path q,
              str_eq_iff path q',
            );
          })
    | inr (a, e) ↦
        rw (e, add_request)
          (record {
            allocated =
                λ q p h. ground (arith, length-count_request sm.store a d, v.allocated q p h);
            unshared = v.unshared;
          })
  ]

  read_at-add_request :
      (q : GoString)
      → read_at (get_all (add_request path d sm)) (add_request path d sm) q
        ≡ (if str_eq path q then bump d (read_at (get_all sm) sm q) else read_at (get_all sm) sm q)
  unfolding add_request read_at get_all
  read_at-add_request q = elim (Option-cases (lookup path sm.operation_metrics)) [
    | inl e ↦ elim (Option-cases (lookup q sm.operation_metrics)) [
      | inl f ↦ ground (
        arith,
        e,
        f,
        lookup-insert path q (length sm.store) sm.operation_metrics,
        deref-append_last sm.store (record { num_requests = 1; total_response_time = u64 d }),
      )
      | inr (b, f) ↦ ground (
        arith,
        e,
        f,
        lookup-insert path q (length sm.store) sm.operation_metrics,
        str_eq_iff path q,
        deref-append sm.store (record { num_requests = 1; total_response_time = u64 d }) b
            (v.allocated q b f),
      )
    ]
    | inr (a, e) ↦ elim (Option-cases (lookup q sm.operation_metrics)) [
      | inl f ↦ ground (arith, e, f, str_eq_iff path q)
      | inr (b, f) ↦ ground (
        arith,
        e,
        f,
        str_eq_iff path q,
        deref-count_request sm.store a d (v.allocated path a e),
        deref-count_request_ne sm.store a b d,
        λ (x : a ≡ b). v.unshared path q b (rw (← x) e) f,
      )
    ]
  ]

abbrev pub Request : Type 0
Request = GoString × ℕ

-- A run of `AddRequest` calls.
abbrev pub add_requests : List Request → StatusMetrics → StatusMetrics
add_requests [] sm = sm
add_requests ((path, d) ∷ log) sm = add_requests log (add_request path d sm)

-- The durations that a log has for a path.
abbrev pub durations : GoString → List Request → List ℕ
durations path [] = []
durations path ((q, d) ∷ log) =
    let rest = durations path log in if str_eq q path then d ∷ rest else rest

abbrev pub sum : List ℕ → ℕ
sum [] = 0
sum (d ∷ ds) = d + sum ds

-- What the counters of a path hold after requests of the given durations.
abbrev pub totals : List ℕ → Option EndpointMetricsResponse
totals [] = none
totals (d ∷ ds) =
    some (record { num_requests = u64 (length (d ∷ ds)); total_response_time = u64 (sum (d ∷ ds)) })

abbrev more : Option EndpointMetricsResponse → List ℕ → Option EndpointMetricsResponse
more o [] = o
more o (d ∷ ds) = more (bump d o) ds

more-some :
    (n t : ℕ) (ds : List ℕ)
    → more (some (record { num_requests = u64 n; total_response_time = u64 t })) ds
      ≡ some (record { num_requests = u64 (n + length ds); total_response_time = u64 (t + sum ds) })
more-some n t [] = ground arith
more-some n t (d ∷ ds) = ground (arith, more-some (n + 1) (t + d) ds)

more-none : (ds : List ℕ) → more none ds ≡ totals ds
more-none [] = refl
more-none (d ∷ ds) = ground (arith, more-some 1 d ds)

read_at-add_requests :
    (log : List Request) (sm : StatusMetrics) (q : GoString)
    → IsValid sm
    → read_at (get_all (add_requests log sm)) (add_requests log sm) q
      ≡ more (read_at (get_all sm) sm q) (durations q log)
read_at-add_requests [] sm q v = refl
read_at-add_requests ((path, d) ∷ log) sm q v =
    read_at-add_requests log (add_request path d sm) q (add_request-IsValid path d sm v)
    ∙ ground (arith, read_at-add_request path d sm v q)

pub add_requests-IsValid :
    (log : List Request) (sm : StatusMetrics) → IsValid sm → IsValid (add_requests log sm)
add_requests-IsValid [] sm v = v
add_requests-IsValid ((path, d) ∷ log) sm v =
    add_requests-IsValid log (add_request path d sm) (add_request-IsValid path d sm v)

-- After any run of `AddRequest` calls on a new instance, `GetAll` gives for each path the number of
-- its requests and the sum of their durations, both modulo 2^64, and nothing for a path that had
-- no request.
pub get_all-add_requests :
    (log : List Request) (path : GoString)
    → let sm = add_requests log new_status_metrics in
      read_at (get_all sm) sm path ≡ totals (durations path log)
unfolding new_status_metrics read_at get_all lookup
get_all-add_requests log path =
    read_at-add_requests log new_status_metrics path new-IsValid ∙ more-none (durations path log)

-- The map that `GetAll` returned shares its structs with the component: when a path that it holds
-- gets one more request, a later read through that map shows the new count.
get_all_shared :
    (sm : StatusMetrics) (path : GoString) (d : ℕ) {r : EndpointMetricsResponse}
    → IsValid sm
    → read_at (get_all sm) sm path ≡ some r
    → read_at (get_all sm) (add_request path d sm) path
      ≡ some (record {
        num_requests = u64 (r.num_requests + 1);
        total_response_time = u64 (r.total_response_time + d);
      })
unfolding read_at get_all add_request
get_all_shared sm path d v h = elim (Option-cases (lookup path sm.operation_metrics)) [
  | inl e ↦ ground (arith, e)
  | inr (a, e) ↦ ground (arith, e, deref-count_request sm.store a d (v.allocated path a e))
]
