-- ===== src/Breaker/Tests.antt =====
-- A connector that does not answer, and the theorems at it.
use euvieouvi.Base.{[], ◌∷◌, ◌≡◌, ◌⊎◌, ◌<◌, ◌≤◌, ◌+◌, refl, false, none, some, arith}
use euvieouvi.Breaker.Metric.{
  ConnectorMetric, Limits, returned, unreachable, new_metric, is_open, begin_call, reject, admit,
  record_success, record_failure, failed_metric, record_latency, end_call, observe,
}
use euvieouvi.Breaker.Steps.{Reach, here, begins, ends, IsConsistent, reachable_metric-IsConsistent}
use euvieouvi.Breaker.Opening.{
  UnreachableCall, unreachable_call, unreachable_calls, unreachable_calls-opens, observe-half_open,
}

program : Unit {0}
unfolding begin_call reject admit record_success record_failure failed_metric record_latency
    end_call observe unreachable_call unreachable_calls
program = tt

abbrev limits : Limits
limits = record { failure_threshold = 2; cooldown = 60 }

abbrev at_ten : UnreachableCall
at_ten = record { started = 10; duration = 0; stamp = 10; error = "refused" }

abbrev slow : UnreachableCall
slow = record { started = 3; duration = 4; stamp = 3; error = "timed out" }

abbrev tripped : ConnectorMetric
tripped = unreachable_calls limits (slow ∷ at_ten ∷ []) (new_metric "plex")

opened : tripped.opened_until_monotonic ≡ some 70
unfolding program
opened = refl

stays_open : (observe limits 69 1 69 returned tripped).0 ≡ false
unfolding program
stays_open = refl

closes : (observe limits 70 1 70 returned tripped).1.opened_until_monotonic ≡ none
unfolding program
closes = refl

in_a_row : 2 ≤ tripped.consecutive_failures
unfolding program
in_a_row = omega arith

unreachable_calls-opens_example :
    let counted : ConnectorMetric = unreachable_calls limits (slow ∷ []) (new_metric "plex") in
    (counted.opened_until_monotonic ≡ none)
    × (counted.rejected ≡ 0)
    × ((2 < limits.failure_threshold)
        ⊎ ((unreachable_call limits at_ten counted).opened_until_monotonic
            ≡ some (10 + 0 + limits.cooldown)))
unreachable_calls-opens_example =
    unreachable_calls-opens limits "plex" (slow ∷ []) at_ten (omega arith)

observe-half_open_example :
    ((69 < 70) × (observe limits 69 1 69 returned tripped ≡ (false, reject tripped)))
    ⊎ ((70 ≤ 69)
        × ((observe limits 69 1 69 returned tripped).1.opened_until_monotonic ≡ none)
        × ((observe limits 69 1 69 returned tripped).1.consecutive_failures ≡ 0)
        × ((observe limits 69 1 69 (unreachable "refused") tripped).1.opened_until_monotonic
            ≡ some (69 + 1 + limits.cooldown)))
observe-half_open_example =
    observe-half_open limits "refused" 69 1 69 70 returned tripped opened in_a_row

-- Two calls overlap; the first has failed.
overlapping : Reach limits 1 (
    end_call limits
      (unreachable "refused")
      5
      15
      15
      (begin_call 11 11 (begin_call 10 10 (new_metric "plex")).1).1)
unfolding program
overlapping =
    ends (unreachable "refused") 5 15 15
      (begins 11 11 (begins 10 10 (here "plex") refl) still_closed)
  where
    still_closed : is_open 11 (begin_call 10 10 (new_metric "plex")).1 ≡ false
    still_closed = refl

reachable_metric-IsConsistent_example : IsConsistent limits 1 (
    end_call limits
      (unreachable "refused")
      5
      15
      15
      (begin_call 11 11 (begin_call 10 10 (new_metric "plex")).1).1)
reachable_metric-IsConsistent_example = reachable_metric-IsConsistent overlapping
