-- ===== src/Breaker/Opening.antt =====
-- When the circuit opens, what it does while it is open, and how it closes again.
use euvieouvi.Base.{
  List, [], ◌∷◌, length, subst, Bool-cases, inl, inr, ltb→lt, ℕ, suc, ◌+◌, ◌≤◌, ◌<◌, ◌≡◌, ◌⊎◌, refl,
  String, false, none, some, arith, ltb, ltb→lt,
}
use euvieouvi.Breaker.Metric.{
  ConnectorMetric, Limits, Outcome, returned, unreachable, new_metric, begin_call, reject, admit,
  record_success, record_failure, failed_metric, record_latency, end_call, observe,
}

-- A call that does not reach the connector: when it starts by the two clocks, how long it takes, and the
-- error that is kept of it.
pub record UnreachableCall : Type 0 where
  pub started : ℕ
  pub duration : ℕ
  pub stamp : ℕ
  pub error : String

unfoldable pub unreachable_call : Limits → UnreachableCall → ConnectorMetric → ConnectorMetric
unreachable_call limits c m =
    (observe limits c.started c.duration c.stamp (unreachable c.error) m).1

-- Such calls one after the other.
unfoldable pub unreachable_calls : Limits → List UnreachableCall → ConnectorMetric → ConnectorMetric
unreachable_calls limits [] m = m
unreachable_calls limits (c ∷ calls) m =
    unreachable_calls limits calls (unreachable_call limits c m)

-- What the calls before the threshold leave.
record IsCounting (n : ℕ) (m : ConnectorMetric) : Type 0 where
  closed : m.opened_until_monotonic ≡ none
  in_a_row : m.consecutive_failures ≡ n
  none_rejected : m.rejected ≡ 0

module _ (limits : Limits) where
  one_more :
      (c : UnreachableCall) (n : ℕ) (m : ConnectorMetric)
      → suc n < limits.failure_threshold
      → IsCounting n m
      → IsCounting (suc n) (unreachable_call limits c m)
  unfolding unreachable_call observe begin_call reject admit end_call record_failure failed_metric
      record_latency
  one_more c n m below h =
      let closed = h.closed in
      let in_a_row = h.in_a_row in
      let none_rejected = h.none_rejected in
      record { closed = ground arith; in_a_row = ground arith; none_rejected = ground arith }

  counting :
      (calls : List UnreachableCall) (n : ℕ) (m : ConnectorMetric)
      → n + length calls < limits.failure_threshold
      → IsCounting n m
      → IsCounting (n + length calls) (unreachable_calls limits calls m)
  unfolding unreachable_calls
  counting [] n m below h = subst (λ k. IsCounting k m) {x = n} {y = n + 0} (omega arith) h
  counting (c ∷ calls) n m below h =
      subst (λ k. IsCounting k (unreachable_calls limits calls (unreachable_call limits c m)))
        {x = suc n + length calls} {y = n + suc (length calls)} (omega arith)
        (counting calls (suc n) (unreachable_call limits c m) (omega arith)
          (one_more c n m (omega arith) h))

  opens_now :
      (c : UnreachableCall) (n : ℕ) (m : ConnectorMetric)
      → suc n ≡ limits.failure_threshold
      → IsCounting n m
      → (unreachable_call limits c m).opened_until_monotonic
        ≡ some (c.started + c.duration + limits.cooldown)
  unfolding unreachable_call observe begin_call reject admit end_call record_failure failed_metric
      record_latency
  opens_now c n m reached h = let closed = h.closed in let in_a_row = h.in_a_row in ground arith

-- From a new metric, the circuit is closed after any calls in a row that do not reach the connector,
-- whenever they come and however long they take, as long as they are fewer than the threshold, and none
-- of them is rejected. The call that makes their number the threshold opens it for the cooldown from the
-- end of that call.
pub unreachable_calls-opens :
    (limits : Limits) (key : String) (calls : List UnreachableCall) (last : UnreachableCall)
    → length calls < limits.failure_threshold
    → let counted : ConnectorMetric = unreachable_calls limits calls (new_metric key) in
      (counted.opened_until_monotonic ≡ none)
      × (counted.rejected ≡ 0)
      × ((suc (length calls) < limits.failure_threshold)
          ⊎ ((unreachable_call limits last counted).opened_until_monotonic
              ≡ some (last.started + last.duration + limits.cooldown)))
unreachable_calls-opens limits key calls last below =
    let h =
      subst (λ k. IsCounting k (unreachable_calls limits calls (new_metric key)))
        {x = 0 + length calls} {y = length calls} (omega arith)
        (counting limits calls 0 (new_metric key) (omega (arith, below))
          (record { closed = refl; in_a_row = refl; none_rejected = refl })) in
    (
      h.closed,
      h.none_rejected,
      elim (Bool-cases (ltb (suc (length calls)) limits.failure_threshold)) [
        | inl e ↦ inl (ltb→lt (suc (length calls)) limits.failure_threshold e)
        | inr e ↦ inr (opens_now limits last (length calls) _ (ground arith) h)
      ],
    )

-- A call at an open circuit is rejected before its end, whatever the connector would answer, and nothing
-- but the count of rejections changes. From then on it is admitted: a success closes the circuit and
-- starts the count again, and, as the failures in a row have reached the threshold, a call that does not
-- reach the connector opens it again at once, for the cooldown from its end.
pub observe-half_open :
    (limits : Limits) (error : String) (started duration stamp until : ℕ) (outcome : Outcome)
    (m : ConnectorMetric)
    → m.opened_until_monotonic ≡ some until
    → limits.failure_threshold ≤ m.consecutive_failures
    → ((started < until) × (observe limits started duration stamp outcome m ≡ (false, reject m)))
      ⊎ ((until ≤ started)
          × ((observe limits started duration stamp returned m).1.opened_until_monotonic ≡ none)
          × ((observe limits started duration stamp returned m).1.consecutive_failures ≡ 0)
          × ((observe limits started duration stamp (unreachable error) m).1.opened_until_monotonic
              ≡ some (started + duration + limits.cooldown)))
unfolding observe begin_call admit end_call record_success record_failure failed_metric
    record_latency
observe-half_open limits error started duration stamp until outcome m opened reached =
    elim (Bool-cases (ltb started until)) [
      | inl early ↦ inl (ltb→lt started until early, rw (opened, early) refl)
      | inr elapsed ↦
          inr (ground arith, rw (opened, elapsed) refl, rw (opened, elapsed) refl, ground arith)
    ]
