-- ===== src/Runtime/Worker/Types/Wait.antt =====
-- How long the worker waits between two steps.
use swbt_rs.Base.{ℕ, ◌<◌, ◌≡◌, refl, true, false, ◌||◌, Option, none, some, arith, by_test}
use swbt_rs.Runtime.Worker.Types.{
  StepProgress, WorkerWaitRequest, activity, activity_or_deadline, has_passed, wait_until,
  wait_request,
}

-- The worker waits unless there is work at once or a deadline has passed, and until the deadline.
abbrev pub Waits : StepProgress → ℕ → Option WorkerWaitRequest → Type 0
Waits progress now none = progress.immediate || has_passed progress.next_deadline now ≡ true
Waits progress now (some activity) = (progress.immediate ≡ false) × (progress.next_deadline ≡ none)
Waits progress now (some (activity_or_deadline deadline)) =
    (progress.immediate ≡ false) × (progress.next_deadline ≡ some deadline) × (now < deadline)

until-Waits :
    (progress : StepProgress) (now : ℕ) (deadline : Option ℕ)
    → progress.next_deadline ≡ deadline
    → progress.immediate ≡ false
    → has_passed deadline now ≡ false
    → Waits progress now (some (wait_until deadline))
until-Waits progress now none e idle waits = (idle, e)
until-Waits progress now (some deadline) e idle waits = (idle, e, ground (arith, waits))

-- At every time and after every step: the worker goes on at once exactly when there is immediate work
-- or the next deadline has passed; otherwise it waits for activity, and until the next deadline if
-- there is one, which then lies in the future.
pub wait_request-Waits :
    (progress : StepProgress) (now : ℕ) → Waits progress now (wait_request progress now)
unfolding wait_request
wait_request-Waits progress now =
    by_test (Waits progress now) progress.immediate (λ h. rw h refl)
      λ idle.
        by_test (Waits progress now) (has_passed progress.next_deadline now)
          (λ h. rw idle (rw h refl))
          λ waits. until-Waits progress now progress.next_deadline refl idle waits
