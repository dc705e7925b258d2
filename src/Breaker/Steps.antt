-- ===== src/Breaker/Steps.antt =====
-- Any interleaving of calls of one connector: each begins and ends, and others come in between.
use euvieouvi.Base.{
  ℕ, suc, ◌+◌, ◌≤◌, ◌≡◌, ◌⊎◌, inl, refl, String, Bool, true, false, Option, none, arith, is_some,
}
use euvieouvi.Breaker.Metric.{
  ConnectorMetric, Limits, Outcome, returned, not_found, unreachable, rate_limited, other_error,
  new_metric, is_open, begin_call, reject, admit, record_success, record_failure, failed_metric,
  record_latency, end_call,
}

-- A metric with the number of calls that have begun and not ended.
pub data Reach (limits : Limits) : ℕ → ConnectorMetric → Type 0 where
  here : (key : String) → Reach limits 0 (new_metric key)
  rejects :
      {n : ℕ} {m : ConnectorMetric} (now stamp : ℕ)
      → Reach limits n m
      → is_open now m ≡ true
      → Reach limits n (begin_call now stamp m).1
  begins :
      {n : ℕ} {m : ConnectorMetric} (now stamp : ℕ)
      → Reach limits n m
      → is_open now m ≡ false
      → Reach limits (suc n) (begin_call now stamp m).1
  ends :
      {n : ℕ} {m : ConnectorMetric} (outcome : Outcome) (duration now stamp : ℕ)
      → Reach limits (suc n) m
      → Reach limits n (end_call limits outcome duration now stamp m)

pub record IsConsistent (limits : Limits) (n : ℕ) (m : ConnectorMetric) : Type 0 where
  pub accounted : m.calls ≡ m.successes + m.failures + n
  pub in_a_row : m.consecutive_failures ≤ m.failures
  pub opened : (m.opened_until_monotonic ≡ none) ⊎ (limits.failure_threshold ≤ m.failures)
  pub both_times : is_some m.opened_until_monotonic ≡ is_some m.opened_until
  pub latency : m.max_latency ≤ m.total_latency

success-IsConsistent :
    (limits : Limits) (n duration : ℕ) (m : ConnectorMetric)
    → IsConsistent limits (suc n) m
    → IsConsistent limits n (record_success duration m)
unfolding record_success record_latency
success-IsConsistent limits n duration m h = record {
  accounted = omega (arith, h.accounted);
  in_a_row = omega arith;
  opened = inl refl;
  both_times = refl;
  latency = omega (arith, h.latency);
}

failure-IsConsistent :
    (limits : Limits) (error : String) (trips : Bool) (retry_after : Option ℕ)
    (n duration now stamp : ℕ) (m : ConnectorMetric)
    → IsConsistent limits (suc n) m
    → IsConsistent limits n (record_failure limits error trips retry_after duration now stamp m)
unfolding record_failure failed_metric record_latency
failure-IsConsistent limits error trips retry_after n duration now stamp m h =
    let accounted = h.accounted in
    let in_a_row = h.in_a_row in
    let opened = h.opened in
    let both_times = h.both_times in
    let latency = h.latency in
    record {
      accounted = ground arith;
      in_a_row = ground arith;
      opened = ground arith;
      both_times = ground arith;
      latency = ground arith;
    }

end-IsConsistent :
    (limits : Limits) (outcome : Outcome) (n duration now stamp : ℕ) (m : ConnectorMetric)
    → IsConsistent limits (suc n) m
    → IsConsistent limits n (end_call limits outcome duration now stamp m)
unfolding end_call
end-IsConsistent limits returned n duration now stamp m h =
    success-IsConsistent limits n duration m h
end-IsConsistent limits not_found n duration now stamp m h =
    success-IsConsistent limits n duration m h
end-IsConsistent limits (unreachable error) n duration now stamp m h =
    failure-IsConsistent limits error true none n duration now stamp m h
end-IsConsistent limits (rate_limited error retry_after) n duration now stamp m h =
    failure-IsConsistent limits error true retry_after n duration now stamp m h
end-IsConsistent limits (other_error error) n duration now stamp m h =
    failure-IsConsistent limits error false none n duration now stamp m h

-- However the calls of a connector overlap, every call that began has ended in a success or a failure
-- or is still under way, the failures in a row are among all failures, the circuit has been opened only
-- if there were as many failures as the threshold, both clocks' times of its end are set together, and
-- the longest call is within the total time.
pub reachable_metric-IsConsistent :
    {limits : Limits} {n : ℕ} {m : ConnectorMetric} → Reach limits n m → IsConsistent limits n m
unfolding begin_call reject admit
reachable_metric-IsConsistent (here key) = record {
  accounted = omega arith;
  in_a_row = omega arith;
  opened = inl refl;
  both_times = refl;
  latency = omega arith;
}
reachable_metric-IsConsistent (rejects {n} {m} now stamp r is_open) =
    let h = reachable_metric-IsConsistent r in
    rw is_open (record {
      accounted = h.accounted;
      in_a_row = h.in_a_row;
      opened = h.opened;
      both_times = h.both_times;
      latency = h.latency;
    })
reachable_metric-IsConsistent (begins {n} {m} now stamp r closed) =
    let h = reachable_metric-IsConsistent r in
    rw closed (record {
      accounted = omega (arith, h.accounted);
      in_a_row = h.in_a_row;
      opened = inl refl;
      both_times = refl;
      latency = h.latency;
    })
reachable_metric-IsConsistent (ends {n} {m} outcome duration now stamp r) =
    end-IsConsistent _ outcome n duration now stamp m (reachable_metric-IsConsistent r)
