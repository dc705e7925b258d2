-- ===== src/Breaker/Metric.antt =====
-- The circuit breaker of observability.py for one connector: ConnectorMetric and the methods `observe`,
-- `_record_success` and `_record_failure` of CircuitBreakerRegistry. Each method holds the lock, so it
-- is one step. Times and durations are numbers of microseconds.
use euvieouvi.Base.{
  ℕ, suc, ◌+◌, String, Bool, true, false, ◌&&◌, Option, none, some, max, if◌then◌else◌, some_or,
  ltb, leb,
}

pub record ConnectorMetric : Type 0 where
  pub key : String
  pub calls : ℕ
  pub successes : ℕ
  pub failures : ℕ
  pub rejected : ℕ
  pub consecutive_failures : ℕ
  pub total_latency : ℕ
  pub max_latency : ℕ
  pub last_latency : Option ℕ
  pub last_error : Option String
  pub last_call_at : Option ℕ
  pub opened_until_monotonic : Option ℕ
  pub opened_until : Option ℕ

abbrev pub new_metric : String → ConnectorMetric
new_metric key = record {
  key = key;
  calls = 0;
  successes = 0;
  failures = 0;
  rejected = 0;
  consecutive_failures = 0;
  total_latency = 0;
  max_latency = 0;
  last_latency = none;
  last_error = none;
  last_call_at = none;
  opened_until_monotonic = none;
  opened_until = none;
}

-- The arguments of the registry.
pub record Limits : Type 0 where
  pub failure_threshold : ℕ
  pub cooldown : ℕ

-- How the body of a `with observe(...)` ends; an error has the text that is kept of it.
pub data Outcome : Type 0 where
  returned not_found : Outcome
  unreachable : String → Outcome
  rate_limited : String → Option ℕ → Outcome
  other_error : String → Outcome

-- `opened_until_monotonic is not None and opened_until_monotonic > started`
abbrev pub is_open : ℕ → ConnectorMetric → Bool
is_open now m = elim m.opened_until_monotonic [ none ↦ false | some t ↦ ltb now t ]

unfoldable pub reject : ConnectorMetric → ConnectorMetric
reject m = record m { rejected = suc m.rejected }

unfoldable pub admit : ℕ → ConnectorMetric → ConnectorMetric
admit stamp m = record m {
  opened_until_monotonic = none;
  opened_until = none;
  calls = suc m.calls;
  last_call_at = some stamp;
}

-- The entry of `observe`: whether the call is admitted.
unfoldable pub begin_call : ℕ → ℕ → ConnectorMetric → Bool × ConnectorMetric
begin_call started stamp m = if is_open started m then (false, reject m) else (true, admit stamp m)

-- `_record_latency`
unfoldable pub record_latency : ℕ → ConnectorMetric → ConnectorMetric
record_latency duration m = record m {
  total_latency = m.total_latency + duration;
  max_latency = max m.max_latency duration;
  last_latency = some duration;
}

unfoldable pub record_success : ℕ → ConnectorMetric → ConnectorMetric
unfolding record_latency
record_success duration m = record_latency duration (record m {
  successes = suc m.successes;
  consecutive_failures = 0;
  last_error = none;
  opened_until_monotonic = none;
  opened_until = none;
})

-- The failure is counted, and then the circuit opens if it has to.
unfoldable pub failed_metric : String → Bool → ℕ → ConnectorMetric → ConnectorMetric
unfolding record_latency
failed_metric error trips_circuit duration m = record_latency duration (record m {
  failures = suc m.failures;
  consecutive_failures = if trips_circuit then suc m.consecutive_failures else 0;
  last_error = some error;
})

-- `now` is the monotonic clock at the end of the call, `stamp` the other one.
unfoldable pub record_failure :
    Limits → String → Bool → Option ℕ → ℕ → ℕ → ℕ → ConnectorMetric → ConnectorMetric
record_failure limits error trips_circuit retry_after duration now stamp m =
    let counted = failed_metric error trips_circuit duration m in
    let pause = max limits.cooldown (some_or retry_after 0) in
    if trips_circuit && leb limits.failure_threshold counted.consecutive_failures
    then record counted {
      opened_until_monotonic = some (now + pause);
      opened_until = some (stamp + pause);
    }
    else counted

-- The except clauses of `observe`.
unfoldable pub end_call : Limits → Outcome → ℕ → ℕ → ℕ → ConnectorMetric → ConnectorMetric
end_call limits returned duration now stamp m = record_success duration m
end_call limits not_found duration now stamp m = record_success duration m
end_call limits (unreachable error) duration now stamp m =
    record_failure limits error true none duration now stamp m
end_call limits (rate_limited error retry_after) duration now stamp m =
    record_failure limits error true retry_after duration now stamp m
end_call limits (other_error error) duration now stamp m =
    record_failure limits error false none duration now stamp m

-- `observe` around a body that takes `duration`; `none` is the rejection.
unfoldable pub observe : Limits → ℕ → ℕ → ℕ → Outcome → ConnectorMetric → Bool × ConnectorMetric
observe limits started duration stamp outcome m =
    let (admitted, begun) = begin_call started stamp m in
    if admitted
    then (true, end_call limits outcome duration (started + duration) (stamp + duration) begun)
    else (false, begun)
