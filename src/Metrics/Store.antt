-- ===== src/Metrics/Store.antt =====
-- metrics/statusMetrics.go: reading and writing the structs that the map points to.
use mx_chain_notifier_go.Base.{
  ℕ, zero, suc, ◌+◌, ◌<◌, ◌≡◌, refl, ap, ◌≢◌, List, [], ◌∷◌, ◌++◌, Option, none, some, arith,
  string_eq, length,
}
use mx_chain_notifier_go.Metrics.{EndpointMetricsResponse, u64, deref, count_request}

abbrev pub bump : ℕ → Option EndpointMetricsResponse → Option EndpointMetricsResponse
bump d none = some (record { num_requests = 1; total_response_time = u64 d })
bump d (some r) = some (record {
  num_requests = u64 (r.num_requests + 1);
  total_response_time = u64 (r.total_response_time + d);
})

pub deref-some :
    (rs : List EndpointMetricsResponse) (p : ℕ)
    → p < length rs
    → (r : EndpointMetricsResponse) × (deref rs p ≡ some r)
unfolding deref
deref-some [] p h = absurd (omega arith)
deref-some (r ∷ rs) zero h = (r, refl)
deref-some (r ∷ rs) (suc p) h = deref-some rs p (omega arith)

pub length-count_request :
    (rs : List EndpointMetricsResponse) (p d : ℕ) → length (count_request rs p d) ≡ length rs
unfolding count_request
length-count_request [] p d = refl
length-count_request (r ∷ rs) zero d = refl
length-count_request (r ∷ rs) (suc p) d = ap suc (length-count_request rs p d)

pub deref-count_request :
    (rs : List EndpointMetricsResponse) (p d : ℕ)
    → p < length rs
    → deref (count_request rs p d) p ≡ bump d (deref rs p)
unfolding deref count_request
deref-count_request [] p d h = absurd (omega arith)
deref-count_request (r ∷ rs) zero d h = refl
deref-count_request (r ∷ rs) (suc p) d h = deref-count_request rs p d (omega arith)

pub deref-count_request_ne :
    (rs : List EndpointMetricsResponse) (p q d : ℕ)
    → p ≢ q
    → deref (count_request rs p d) q ≡ deref rs q
unfolding deref count_request
deref-count_request_ne [] p q d h = refl
deref-count_request_ne (r ∷ rs) zero zero d h = absurd (h refl)
deref-count_request_ne (r ∷ rs) zero (suc q) d h = refl
deref-count_request_ne (r ∷ rs) (suc p) zero d h = refl
deref-count_request_ne (r ∷ rs) (suc p) (suc q) d h =
    deref-count_request_ne rs p q d (λ e. h (ap suc e))

pub deref-append_last :
    (rs : List EndpointMetricsResponse) (r : EndpointMetricsResponse)
    → deref (rs ++ r ∷ []) (length rs) ≡ some r
unfolding deref
deref-append_last [] r = refl
deref-append_last (x ∷ rs) r = deref-append_last rs r

pub deref-append :
    (rs : List EndpointMetricsResponse) (r : EndpointMetricsResponse) (q : ℕ)
    → q < length rs
    → deref (rs ++ r ∷ []) q ≡ deref rs q
unfolding deref
deref-append [] r q h = absurd (omega arith)
deref-append (x ∷ rs) r zero h = refl
deref-append (x ∷ rs) r (suc q) h = deref-append rs r q (omega arith)
