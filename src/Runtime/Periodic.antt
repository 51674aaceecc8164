-- ===== src/Runtime/Periodic.antt =====
-- src/runtime/periodic.rs: automatic input reports, held off after replies, and taps between them.
pub mod Effects
use swbt_rs.Base.{
  ℕ, ◌+◌, max, Bool, Option, none, some, ltb, leb, if◌then◌else◌, Result, ok, err, ◌==◌,
}
use swbt_rs.Model.Spec.{ControllerKind}
use swbt_rs.Input.State.{InputState}
use swbt_rs.Protocol.Floats.{F64Ops}
use swbt_rs.Runtime.Clock.{protocol_timestamp}
use swbt_rs.Runtime.Output.{reply_accepted, rumble_handled, OutputResult}
use swbt_rs.Runtime.Scheduler
use swbt_rs.Runtime.Scheduler.{
  ReportScheduler, SchedulerError, zero_period, deadline_overflow, TickDecision, not_due, due,
  duration_limit,
}
use swbt_rs.Runtime.Sessions.{commit_input}
use swbt_rs.Runtime.Transport.{
  TransportError, TransportResult, TransportPort, Io, send_state, is_rejected,
}

-- 300 milliseconds.
abbrev pub reply_holdoff : ℕ
reply_holdoff = 300_000_000

pub data PeriodicError : Type 0 where
  not_ready : PeriodicError
  scheduler_failed : SchedulerError → PeriodicError
  -- error, later_terminal
  transport_failed : TransportError → Option TransportError → PeriodicError

pub data AutomaticInput : Type 0 where
  tick_not_due : AutomaticInput
  held_off : ℕ → AutomaticInput
  backpressured : ℕ → AutomaticInput
  sent : ℕ → AutomaticInput

pub data PeriodicStart : Type 0 where
  start_held_off : ℕ → PeriodicStart
  started : ℕ → PeriodicStart

pub record PendingPeriodicTap : Type 0 where
  pub released : InputState
  pub first_error : Option TransportError

pub record PeriodicPolicy : Type 0 where
  pub period : ℕ
  pub scheduler : Option ReportScheduler
  pub reply_holdoff_until : Option ℕ

unfoldable pub new : ℕ → Result SchedulerError PeriodicPolicy
new period =
    if period == 0
    then err zero_period
    else ok (record { period = period; scheduler = none; reply_holdoff_until = none })

-- `if let Some(until) = self.reply_holdoff_until { if now < until { .. } }`
abbrev pub holding : Option ℕ → ℕ → Option ℕ
holding none now = none
holding (some until) now = if ltb now until then some until else none

abbrev pub start_with :
    PeriodicPolicy
    → Result SchedulerError ReportScheduler
    → PeriodicPolicy × Result SchedulerError PeriodicStart
start_with policy (err e) = (policy, err e)
start_with policy (ok scheduler) =
    (record policy { scheduler = some scheduler }, ok (started scheduler.next_deadline))

abbrev pub start_unheld :
    PeriodicPolicy
    → ℕ
    → Option ReportScheduler
    → PeriodicPolicy × Result SchedulerError PeriodicStart
start_unheld policy now (some scheduler) = (policy, ok (started scheduler.next_deadline))
start_unheld policy now none = start_with policy (Scheduler.start now policy.period)

abbrev pub start_unless :
    PeriodicPolicy → ℕ → Option ℕ → PeriodicPolicy × Result SchedulerError PeriodicStart
start_unless policy now (some until) = (policy, ok (start_held_off until))
start_unless policy now none = start_unheld policy now policy.scheduler

unfoldable pub start_when_unheld :
    PeriodicPolicy → ℕ → PeriodicPolicy × Result SchedulerError PeriodicStart
start_when_unheld policy now = start_unless policy now (holding policy.reply_holdoff_until now)

abbrev pub later : Option ℕ → ℕ → ℕ
later none candidate = candidate
later (some current) candidate = max current candidate

abbrev hold_until : PeriodicPolicy → ℕ → PeriodicPolicy × Result PeriodicError (Unit {0})
hold_until policy completed_at =
    if leb duration_limit (completed_at + reply_holdoff)
    then (policy, err (scheduler_failed deadline_overflow))
    else (
      record policy {
        reply_holdoff_until =
            some (later policy.reply_holdoff_until (completed_at + reply_holdoff));
      },
      ok tt,
    )

unfoldable pub record_output_completion :
    PeriodicPolicy → ℕ → OutputResult → PeriodicPolicy × Result PeriodicError (Unit {0})
record_output_completion policy completed_at (ok reply_accepted) = hold_until policy completed_at
record_output_completion policy completed_at (ok rumble_handled) = (policy, ok tt)
record_output_completion policy completed_at (err _) = (policy, ok tt)

unfoldable pub stop_session : PeriodicPolicy → PeriodicPolicy
stop_session policy = record policy { scheduler = none; reply_holdoff_until = none }

unfoldable pub reset_for_new_session : PeriodicPolicy → PeriodicPolicy
unfolding stop_session
reset_for_new_session policy = stop_session policy

abbrev scheduled : Option ℕ → Option ReportScheduler → Option ℕ
scheduled holdoff none = none
scheduled holdoff (some scheduler) = some (later holdoff scheduler.next_deadline)

unfoldable pub next_deadline : PeriodicPolicy → Option ℕ
next_deadline policy = scheduled policy.reply_holdoff_until policy.scheduler

module _ {T : Type 0} (f : F64Ops) (m : ControllerKind) (port : TransportPort T) where
  abbrev pub Due : Type 0
  Due = PeriodicPolicy × Io T × Result PeriodicError AutomaticInput

  abbrev due_sent : PeriodicPolicy → ℕ → Io T × TransportResult (Unit {0}) → Due
  due_sent policy skipped (io, ok _) = (policy, io, ok (sent skipped))
  due_sent policy skipped (io, err e) = (policy, io, err (transport_failed e none))

  abbrev due_ticked :
      PeriodicPolicy → Io T → ℕ → ReportScheduler × Result SchedulerError TickDecision → Due
  due_ticked policy io now (s, err e) =
      (record policy { scheduler = some s }, io, err (scheduler_failed e))
  due_ticked policy io now (s, ok not_due) =
      (record policy { scheduler = some s }, io, ok tick_not_due)
  due_ticked policy io now (s, ok (due skipped)) =
      let policy' = record policy { scheduler = some s } in
      if port.interrupt_send_capacity_available io.transport
      then due_sent policy' skipped
          (send_state f m port io io.input.committed (protocol_timestamp now))
      else (policy', io, ok (backpressured skipped))

  abbrev due_unless : PeriodicPolicy → Io T → ℕ → ReportScheduler → Option ℕ → Due
  due_unless policy io now s (some until) = (policy, io, ok (held_off until))
  due_unless policy io now s none = due_ticked policy io now (Scheduler.step s now)

  abbrev due_of : PeriodicPolicy → Io T → ℕ → Option ReportScheduler → Due
  due_of policy io now none = (policy, io, err not_ready)
  due_of policy io now (some s) =
      due_unless policy io now s (holding policy.reply_holdoff_until now)

  unfoldable pub send_due : PeriodicPolicy → Io T → ℕ → Due
  send_due policy io now = due_of policy io now policy.scheduler

  -- The candidate is the committed state before it is sent.
  unfoldable pub commit_and_send_candidate :
      Io T → InputState → ℕ → Io T × TransportResult (Unit {0})
  commit_and_send_candidate io candidate now_ns =
      send_state f m port (record io { input = commit_input io.input candidate }) candidate now_ns

  abbrev finished :
      Option TransportError → TransportResult (Unit {0}) → Result PeriodicError (Unit {0})
  finished none (ok _) = ok tt
  finished (some error) (ok _) = err (transport_failed error none)
  finished none (err error) = err (transport_failed error none)
  finished (some error) (err release_error) =
      err (transport_failed error (if is_rejected release_error then none else some release_error))

  unfoldable pub finish : PendingPeriodicTap → Io T → ℕ → Io T × Result PeriodicError (Unit {0})
  finish tap io now_ns =
      let (io', result) = commit_and_send_candidate io tap.released now_ns in
      (io', finished tap.first_error result)

  abbrev pub tap_begun :
      InputState
      → Io T × TransportResult (Unit {0})
      → Io T × Result PeriodicError PendingPeriodicTap
  tap_begun released (io, ok _) = (io, ok (record { released = released; first_error = none }))
  tap_begun released (io, err error) =
      if is_rejected error
      then (io, ok (record { released = released; first_error = some error }))
      else (io, err (transport_failed error none))

  unfoldable pub begin_tap :
      Bool → InputState × InputState × ℕ → Io T → ℕ → Io T × Result PeriodicError PendingPeriodicTap
  begin_tap ready (pressed, released, _) io now_ns =
      if ready
      then tap_begun released (commit_and_send_candidate io pressed now_ns)
      else (io, err not_ready)
