-- ===== src/Runtime/Readiness/Starts.antt =====
-- When a periodic session starts its reports.
use swbt_rs.Base.{
  ℕ, ◌+◌, ◌<◌, ◌≡◌, ◌⊎◌, inl, inr, refl, Bool, true, false, Option, none, some, leb, ◌==◌, by_test,
  Result, ok, err,
}
use swbt_rs.Protocol.Session.{protocol_ready, report_mode}
use swbt_rs.Runtime.Handshake.{Handshake}
use swbt_rs.Runtime.Periodic.{
  PeriodicPolicy, PeriodicStart, start_held_off, started, holding, start_with, start_unheld,
  start_unless, start_when_unheld,
}
use swbt_rs.Runtime.Periodic.Effects.{Free, Free-holding, held-until}
use swbt_rs.Runtime.Readiness.{
  ReadinessGate, still_pending, ready, wait_holdoff, EvaluatedPeriodic, Collected,
  collect_handshake, ready_of, take_ready_session, periodic_started, reporting_started,
  is_mode_0x30, periodic_collected, periodic_active, evaluate_periodic,
}
use swbt_rs.Runtime.Readiness.Laws.{Kept, Own, Answers, active_cases, evaluate_periodic-Answers_of}
use swbt_rs.Runtime.Scheduler
use swbt_rs.Runtime.Scheduler.{ReportScheduler, SchedulerError}
use swbt_rs.Runtime.Sender.{ReportSender}
use swbt_rs.Runtime.Sessions.{ConnectionSessions}

-- The policy once the reports run: a schedule that was there is kept, and otherwise the first report
-- is due one period from now.
abbrev pub Runs : PeriodicPolicy → ℕ → Option ReportScheduler → PeriodicPolicy → Type 0
Runs policy now (some _) policy' = policy' ≡ policy
Runs policy now none policy' = policy' ≡ record policy {
  scheduler = some (record { period = policy.period; next_deadline = now + policy.period });
}

-- Reports start outside of a holdoff.
abbrev pub Started : PeriodicPolicy → ℕ → PeriodicPolicy → Type 0
Started policy now policy' =
    Free policy.reply_holdoff_until now × Runs policy now policy.scheduler policy'

abbrev pub IsHeld : PeriodicPolicy → ℕ → ℕ → PeriodicPolicy → Type 0
IsHeld policy now until policy' =
    (policy.reply_holdoff_until ≡ some until) × (now < until) × (policy' ≡ policy)

-- The policy that an evaluation leaves, by its answer.
abbrev pub Starts : PeriodicPolicy → ℕ → EvaluatedPeriodic → Type 0
Starts policy now (policy', (_, _, ok (ready id))) = Started policy now policy'
Starts policy now (policy', (_, _, ok (still_pending (wait_holdoff until)))) =
    IsHeld policy now until policy'
Starts policy now (policy', (_, _, _)) = (policy' ≡ policy) ⊎ Started policy now policy'

-- What a start leaves.
abbrev Start : PeriodicPolicy → ℕ → PeriodicPolicy × Result SchedulerError PeriodicStart → Type 0
Start policy now (policy', ok (started _)) = Started policy now policy'
Start policy now (policy', ok (start_held_off until)) = IsHeld policy now until policy'
Start policy now (policy', err _) = policy' ≡ policy

begun_schedule :
    (policy : PeriodicPolicy) (now : ℕ)
    → Free policy.reply_holdoff_until now
    → policy.scheduler ≡ none
    → Start policy now (start_with policy (Scheduler.start now policy.period))
unfolding Scheduler.start
begun_schedule policy now free e =
    by_test (λ r. Start policy now (start_with policy r)) (policy.period == 0) (λ _. refl)
      λ _.
        by_test (λ r. Start policy now (start_with policy r))
          (leb Scheduler.duration_limit (now + policy.period)) (λ _. refl) λ _. (free, rw e refl)

unheld-Start :
    (policy : PeriodicPolicy) (now : ℕ) (scheduler : Option ReportScheduler)
    → Free policy.reply_holdoff_until now
    → policy.scheduler ≡ scheduler
    → Start policy now (start_unheld policy now scheduler)
unheld-Start policy now none free e = begun_schedule policy now free e
unheld-Start policy now (some s) free e = (free, rw e refl)

unless-Start :
    (policy : PeriodicPolicy) (now : ℕ) (held : Option ℕ)
    → holding policy.reply_holdoff_until now ≡ held
    → Start policy now (start_unless policy now held)
unless-Start policy now none e =
    unheld-Start policy now policy.scheduler (Free-holding policy.reply_holdoff_until now e) refl
unless-Start policy now (some until) e =
    let (held, before) = held-until policy.reply_holdoff_until now until e in (held, before, refl)

start_when_unheld-Start :
    (policy : PeriodicPolicy) (now : ℕ) → Start policy now (start_when_unheld policy now)
unfolding start_when_unheld
start_when_unheld-Start policy now =
    unless-Start policy now (holding policy.reply_holdoff_until now) refl

taken-Starts :
    (policy policy' : PeriodicPolicy) (now : ℕ) (gate : ReadinessGate) (h : Option Handshake)
    (held : Option ℕ)
    → Started policy now policy'
    → Starts policy now (policy', (gate, h, ok (ready_of held)))
taken-Starts policy policy' now gate h none s = inr s
taken-Starts policy policy' now gate h (some id) s = s

reporting_started-Starts :
    (policy : PeriodicPolicy) (now : ℕ) (gate : ReadinessGate) (h : Option Handshake)
    (is_ready : Bool) (begun : PeriodicPolicy × Result SchedulerError PeriodicStart)
    → Start policy now begun
    → Starts policy now (reporting_started gate h is_ready begun)
unfolding take_ready_session
reporting_started-Starts policy now gate h is_ready (policy', err e) s = inl s
reporting_started-Starts policy now gate h false (policy', ok (started _)) s = inr s
reporting_started-Starts policy now gate h false (policy', ok (start_held_off _)) (_, _, same) =
    inl same
reporting_started-Starts policy now gate h true (policy', ok (started _)) s =
    taken-Starts policy policy' now (record gate { handshake = none }) h gate.handshake s
reporting_started-Starts policy now gate h true (policy', ok (start_held_off _)) s = s

unstarted-Starts :
    (policy : PeriodicPolicy) (now : ℕ) (gate : ReadinessGate) (h : Option Handshake)
    (is_ready : Bool)
    → Starts policy now (policy, periodic_started gate h is_ready none)
unstarted-Starts policy now gate h false = inl refl
unstarted-Starts policy now gate h true = inl refl

periodic_collected-Starts :
    (policy : PeriodicPolicy) (now : ℕ) (sender : ReportSender) (collected : Collected)
    → Starts policy now (periodic_collected sender policy now collected)
periodic_collected-Starts policy now sender (gate, h, err e) = inl refl
periodic_collected-Starts policy now sender (gate, h, ok false) = inl refl
periodic_collected-Starts policy now sender (gate, h, ok true) =
    by_test {A = EvaluatedPeriodic} (Starts policy now)
      (is_mode_0x30 (report_mode sender.committed.session))
      (λ _.
        reporting_started-Starts policy now gate h (protocol_ready sender.committed.session)
          (start_when_unheld policy now) (start_when_unheld-Start policy now))
      λ _. unstarted-Starts policy now gate h (protocol_ready sender.committed.session)

evaluate_periodic-Starts :
    (gate : ReadinessGate) (now : ℕ) (sessions : ConnectionSessions) (handshake : Option Handshake)
    (sender : ReportSender) (policy : PeriodicPolicy)
    → Starts policy now (evaluate_periodic gate now sessions handshake sender policy)
unfolding evaluate_periodic
evaluate_periodic-Starts gate now sessions handshake sender policy =
    active_cases {A = EvaluatedPeriodic} (Starts policy now) gate now sessions
      (periodic_active gate handshake sender policy now)
      (λ _. periodic_collected-Starts policy now sender (collect_handshake gate handshake))
      λ e. inl refl

-- For a gate that holds no completion but that of its own session: a periodic session is ready only
-- with the identifier of the gate, while it is the current one, before the deadline of the operation
-- and when the protocol is ready, and then no holdoff is running and the policy has a schedule: the
-- one it had, or a new one with the policy's period whose first report is due one period from now.
-- As long as the session waits the first two conditions hold and the gate is again such a gate of the
-- same session; it waits for a holdoff only when that holdoff lies in the future, and then the policy
-- is unchanged. Otherwise the policy is unchanged or its reports have started in the same way. The
-- completion and the start that are expected at the end are there.
pub evaluate_periodic-Answers :
    (gate : ReadinessGate) (now : ℕ) (sessions : ConnectionSessions) (handshake : Option Handshake)
    (sender : ReportSender) (policy : PeriodicPolicy)
    → Kept (Own gate) gate.handshake
    → Answers
        (Own gate)
        gate
        now
        sessions
        sender
        (evaluate_periodic gate now sessions handshake sender policy).1
      × Starts policy now (evaluate_periodic gate now sessions handshake sender policy)
evaluate_periodic-Answers gate now sessions handshake sender policy kept = (
  evaluate_periodic-Answers_of (Own gate) gate now sessions handshake sender policy refl kept,
  evaluate_periodic-Starts gate now sessions handshake sender policy,
)
