-- ===== src/JobRunner/Duration/Bounds.antt =====
-- client/jobrunner.go: the range of `durationSeconds`.
use managed_services_lib.Common.{
  String, ℕ, zero, suc, ◌+◌, ◌*◌, ◌/◌, ◌%◌, ◌^◌, ◌≤◌, ◌<◌, ◌≡◌, ◌↔◌, false, arith,
}
use managed_services_lib.Common.Int.{pos, to_int32_small}
use managed_services_lib.JobRunner.Types.{second, JobSpec}
use managed_services_lib.JobRunner.Duration.{
  top_bit, rounds_up, whole_seconds, duration_seconds, nanoseconds,
}
use managed_services_lib.JobRunner.Build.{plain_job}

top_bit-le : (bits n : ℕ) → 0 < n → top_bit bits n ≤ n
unfolding top_bit
top_bit-le zero n h = omega arith
top_bit-le (suc bits) n h = ground (arith, top_bit-le bits n)

-- Below 2 ^ 23 seconds a float64 tells apart the nanoseconds next to a whole second.
rounds_up_short : (secs rest : ℕ) → secs < 2 ^ 23 → rest < second → rounds_up secs rest ≡ false
unfolding rounds_up
rounds_up_short secs rest h k = ground (arith, top_bit-le 34 secs)

whole_seconds_short : (d : ℕ) → d < 2 ^ 23 * second → whole_seconds d ≡ d / second
unfolding whole_seconds
whole_seconds_short d h = ground (arith, rounds_up_short (d / second) (d % second))

whole_seconds_bounds : (d : ℕ) → (d / second ≤ whole_seconds d) × (whole_seconds d ≤ d / second + 1)
unfolding whole_seconds
whole_seconds_bounds d = ground arith

whole_seconds_zero : (d : ℕ) → (whole_seconds d ≡ 0) ↔ (d < second)
unfolding whole_seconds rounds_up
whole_seconds_zero d = ground arith

-- The limits of a Job whose timeout and TTL are positive and below 2 ^ 23 seconds (97 days) are
-- exactly their whole seconds: nothing is rounded up, and the `int32` of the TTL does not wrap.
pub job_limits :
    (spec : JobSpec) (ns : String) (t u : ℕ)
    → spec.timeout ≡ pos t
    → spec.ttl ≡ pos u
    → 0 < t
    → 0 < u
    → t < 2 ^ 23 * second
    → u < 2 ^ 23 * second
    → ((plain_job spec ns).active_deadline_seconds ≡ t / second)
      × ((plain_job spec ns).ttl_seconds_after_finished ≡ pos (u / second))
unfolding plain_job duration_seconds
job_limits spec ns t u ht hu pt pu bt bu =
    rw (ht, hu)
      (ground
        (arith, whole_seconds_short t bt, whole_seconds_short u bu, to_int32_small (u / second)))

-- The deadline of a Job is zero exactly for a positive timeout below a second.
pub deadline_zero :
    (spec : JobSpec) (ns : String)
    → ((plain_job spec ns).active_deadline_seconds ≡ 0)
      ↔ ((0 < nanoseconds spec.timeout) × (nanoseconds spec.timeout < second))
unfolding plain_job duration_seconds
deadline_zero spec ns =
    ground
      (arith, whole_seconds_zero (nanoseconds spec.timeout), whole_seconds_zero (6 * 3600 * second))
