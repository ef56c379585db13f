-- ===== src/Provider/ServiceJob/Times.antt =====
-- provider/servicejob.go: the times in an operation's status.
use managed_services_lib.Common.{ℕ, ◌<◌, ◌/◌, ◌^◌, ◌≡◌, arith, Option, none, some}
use managed_services_lib.Common.Time.{Time}
use managed_services_lib.Common.Time.RoundTrip.{
  read_rfc3339, read-format_rfc3339, last_time, read_nothing,
}
use managed_services_lib.JobRunner.Types.{JobState}
use managed_services_lib.Provider.ServiceJob.{operation_status_from_job, format_time}

-- An instant before the year 10000, if there is one.
abbrev pub InRange : Option Time → Type 0
InRange none = Unit
InRange (some t) = t < last_time

-- Whole seconds since the start of the year 1.
abbrev pub in_seconds : Option Time → Option ℕ
in_seconds none = none
in_seconds (some t) = some (t / 10 ^ 9)

read-format_time : (o : Option Time) → InRange o → read_rfc3339 (format_time o) ≡ in_seconds o
read-format_time none h = unfold format_time in read_nothing
read-format_time (some t) h = unfold format_time in read-format_rfc3339 t h

-- The times of an operation's status are RFC 3339 texts that read back as the seconds at which the
-- Job started and finished, in any phase and for any instant before the year 10000; a time that the
-- Job does not have is no such text.
pub read-operation_status_from_job :
    (st : JobState)
    → InRange st.started_at
    → InRange st.finished_at
    → (read_rfc3339 (operation_status_from_job st).started_at ≡ in_seconds st.started_at)
      × (read_rfc3339 (operation_status_from_job st).completed_at ≡ in_seconds st.finished_at)
unfolding operation_status_from_job
read-operation_status_from_job st h k =
    ground (arith, read-format_time st.started_at h, read-format_time st.finished_at k)
