-- ===== src/Runtime/Scheduler.antt =====
-- src/runtime/scheduler.rs: the periodic report deadline. A `Duration` is its total number of
-- nanoseconds, below 2 ^ 64 seconds.
use swbt_rs.Base.{
  ℕ, ◌+◌, ◌-◌, ◌*◌, ◌/◌, ◌%◌, ◌≤◌, ◌<◌, ◌≡◌, ◌⊎◌, inl, inr, true, false, ltb, leb, ltb→lt, leb→le,
  ◌==◌, if◌then◌else◌, by_test, Result, ok, err, arith,
}

pub data TickDecision : Type 0 where
  not_due : TickDecision
  due : ℕ → TickDecision

pub data SchedulerError : Type 0 where
  zero_period deadline_overflow : SchedulerError

pub record ReportScheduler : Type 0 where
  pub period : ℕ
  pub next_deadline : ℕ

abbrev pub nanos_per_second : ℕ
nanos_per_second = 1_000_000_000

-- The least number of nanoseconds that no `Duration` has.
abbrev pub duration_limit : ℕ
duration_limit = 18_446_744_073_709_551_616_000_000_000

-- `start` and the `checked_add` in it.
unfoldable pub start : ℕ → ℕ → Result SchedulerError ReportScheduler
start started_at period =
    if period == 0
    then err zero_period
    else if leb duration_limit (started_at + period)
    then err deadline_overflow
    else ok (record { period = period; next_deadline = started_at + period })

unfoldable pub duration_from_total_nanos : ℕ → Result SchedulerError ℕ
duration_from_total_nanos total_nanos =
    if leb 18_446_744_073_709_551_616 (total_nanos / nanos_per_second)
    then err deadline_overflow
    else ok (total_nanos / nanos_per_second * nanos_per_second + total_nanos % nanos_per_second)

-- The deadline that `step` stores after `until_next`, or the failure that leaves the old one.
unfoldable pub store_deadline :
    ReportScheduler
    → ℕ
    → ℕ
    → Result SchedulerError ℕ
    → ReportScheduler × Result SchedulerError TickDecision
store_deadline s now skipped (err e) = (s, err e)
store_deadline s now skipped (ok until_next) =
    if leb duration_limit (now + until_next)
    then (s, err deadline_overflow)
    else (record { period = s.period; next_deadline = now + until_next }, ok (due skipped))

unfoldable pub step : ReportScheduler → ℕ → ReportScheduler × Result SchedulerError TickDecision
step s now =
    if ltb now s.next_deadline
    then (s, ok not_due)
    else let elapsed = now - s.next_deadline in
      let skipped = elapsed / s.period in
      let until_next = s.period - elapsed % s.period in
      if leb 18_446_744_073_709_551_616 skipped
      then (s, err deadline_overflow)
      else store_deadline s now skipped (duration_from_total_nanos until_next)

-- What a tick at `now` may do: the scheduler and the answer after it.
pub data Ticks (s : ReportScheduler) (now : ℕ)
    : ReportScheduler × Result SchedulerError TickDecision → Type 0 where
  early : now < s.next_deadline → Ticks s now (s, ok not_due)
  on_phase :
      (skipped deadline : ℕ)
      → s.next_deadline ≤ now
      → deadline ≡ s.next_deadline + (skipped + 1) * s.period
      → now < deadline
      → deadline ≤ now + s.period
      → Ticks s now (record { period = s.period; next_deadline = deadline }, ok (due skipped))
  too_late :
      s.next_deadline ≤ now
      → (18_446_744_073_709_551_616 ≤ (now - s.next_deadline) / s.period)
        ⊎ (duration_limit ≤ now + s.period)
      → Ticks s now (s, err deadline_overflow)

divided :
    (total : ℕ) → total / nanos_per_second * nanos_per_second + total % nanos_per_second ≡ total
divided total = omega arith

-- The quotient stays under the product, so that the sum stays linear in it.
phase :
    (next now period quotient remainder : ℕ)
    → next ≤ now
    → remainder < period
    → now - next ≡ quotient * period + remainder
    → now + (period - remainder) ≡ next + (quotient + 1) * period
phase next now period quotient remainder due_now small split = grind arith

remainder_lt : (a period : ℕ) → 0 < period → a % period < period
remainder_lt a period positive = ground arith

split_lem : (a period : ℕ) → 0 < period → a ≡ a / period * period + a % period
split_lem a period positive = grind arith

not_long :
    (until_next : ℕ)
    → leb 18_446_744_073_709_551_616 (until_next / nanos_per_second) ≡ true
    → until_next < duration_limit
    → ⊥
not_long until_next long short = ground arith

deadline_over :
    (now period until_next : ℕ)
    → leb duration_limit (now + until_next) ≡ true
    → until_next ≤ period
    → duration_limit ≤ now + period
deadline_over now period until_next over short = ground arith

not_before : (a b : ℕ) → ltb a b ≡ false → b ≤ a
not_before a b h = ground arith

store_deadline-Ticks :
    (s : ReportScheduler) (now : ℕ)
    → 0 < s.period
    → s.period < duration_limit
    → s.next_deadline ≤ now
    → Ticks s now (
        store_deadline s now
          ((now - s.next_deadline) / s.period)
          (duration_from_total_nanos (s.period - (now - s.next_deadline) % s.period)))
unfolding store_deadline duration_from_total_nanos
store_deadline-Ticks s now positive fits due_now =
    let elapsed = now - s.next_deadline in
    let until_next = s.period - elapsed % s.period in
    let small = remainder_lt elapsed s.period positive in
    by_test (λ until. Ticks s now (store_deadline s now (elapsed / s.period) until))
      (leb 18_446_744_073_709_551_616 (until_next / nanos_per_second))
      (λ long. absurd (not_long until_next long (omega arith)))
      (λ _. rw (divided until_next) (
        by_test (Ticks s now) (leb duration_limit (now + until_next))
          (λ over.
            too_late due_now (inr (deadline_over now s.period until_next over (omega arith))))
          (λ _.
            on_phase (elapsed / s.period) (now + until_next) due_now
              (phase s.next_deadline now s.period (elapsed / s.period) (elapsed % s.period) due_now
                small (split_lem elapsed s.period positive))
              (omega arith) (omega arith))))

-- For every scheduler whose period is not zero and is a duration, and for every time, `step`
-- answers not due and changes nothing where the time is before the deadline. Otherwise it either
-- answers due with a count of skipped ticks, keeps the period, and moves the deadline by one period
-- more than the skipped ones, to a time after now and at most one period after it, or it answers
-- an overflow and changes nothing, and then the count of skipped ticks reaches 2 ^ 64 or one period
-- after now is no duration.
pub step-Ticks :
    (s : ReportScheduler) (now : ℕ)
    → 0 < s.period
    → s.period < duration_limit
    → Ticks s now (step s now)
unfolding step
step-Ticks s now positive fits =
    by_test (Ticks s now) (ltb now s.next_deadline)
      (λ before. early (ltb→lt now s.next_deadline before))
      λ after.
        let due_now = not_before now s.next_deadline after in
        by_test (Ticks s now) (leb 18_446_744_073_709_551_616 ((now - s.next_deadline) / s.period))
          (λ many.
            too_late due_now
              (inl (leb→le 18_446_744_073_709_551_616 ((now - s.next_deadline) / s.period) many)))
          (λ _. store_deadline-Ticks s now positive fits due_now)
