-- ===== src/Runtime/Worker/PeriodicReporting.antt =====
-- src/runtime/worker.rs: the reporting mode `Periodic`, and src/runtime/session.rs: `begin_periodic`.
use swbt_rs.Base.{
  ℕ, Bool, true, false, Option, none, some, [], ◌∷◌, leb, if◌then◌else◌, Result, ok, err,
}
use swbt_rs.Error.{Error}
use swbt_rs.Model.Spec.{ControllerKind}
use swbt_rs.Input.State
use swbt_rs.Input.State.{InputState}
use swbt_rs.Controller.Input.{press_candidate, release_candidate, tap_plan}
use swbt_rs.Protocol.Floats.{F64Ops}
use swbt_rs.Runtime.Clock.{protocol_timestamp, deadline_after}
use swbt_rs.Runtime.Handshake
use swbt_rs.Runtime.Handshake.{Handshake}
use swbt_rs.Runtime.Output.{OutputResult}
use swbt_rs.Runtime.Periodic
use swbt_rs.Runtime.Periodic.{
  PeriodicPolicy, PeriodicError, PendingPeriodicTap, AutomaticInput, sent, begin_tap, finish,
  send_due, record_output_completion, reset_for_new_session,
}
use swbt_rs.Runtime.Readiness.{ReadinessGate, EvaluatedPeriodic, evaluate_periodic, Evaluated}
use swbt_rs.Runtime.Sender.{ReportSender}
use swbt_rs.Runtime.Sessions.{ConnectionSessions, Parts, begin_direct, commit_input}
use swbt_rs.Runtime.Transport.{TransportEvent, link_disconnected, TransportPort, Io}
use swbt_rs.Runtime.Worker.Reporting.{
  Reporting, ReportingEvent, passthrough, session_disconnected, ReportingDue, nothing_due,
}
use swbt_rs.Runtime.Worker.Types.{
  PeriodicCommand, periodic_common, apply, press, release, tap_buttons, neutral, WorkerCommandError,
  input_error, periodic_error, shutdown_error, disconnected_error, WorkerCommandProgress, complete,
  pending, WorkerOperationError, periodic_operation, minimum_deadline,
}

pub record ScheduledPeriodicTap : Type 0 where
  pub tap : PendingPeriodicTap
  pub release_at : ℕ

pub record PeriodicRuntime : Type 0 where
  pub policy : PeriodicPolicy
  pub pending_tap : Option ScheduledPeriodicTap

-- `ConnectionSessions::begin_periodic`
unfoldable pub begin_session : PeriodicRuntime → Parts → PeriodicRuntime × Parts × ℕ
begin_session r parts =
    let (parts', id) = begin_direct parts in
    (record r { policy = reset_for_new_session r.policy }, parts', id)

unfoldable pub periodic_tap_times : ℕ → ℕ → ℕ × ℕ
periodic_tap_times now duration = (protocol_timestamp now, deadline_after now duration)

abbrev pub is_pending {ℓ} : {A : Type ℓ} → Option A → Bool
is_pending none = false
is_pending (some _) = true

-- `take().map(|_| error)`
abbrev pub replaced_by {ℓ} :
    {A : Type ℓ} → Option A → WorkerCommandError → Option WorkerCommandError
replaced_by none error = none
replaced_by (some _) error = some error

abbrev pub deadline_or : Option ℕ → Option ℕ → Option ℕ
deadline_or none other = other
deadline_or (some deadline) other = some deadline

abbrev pub tap_deadline : Option ScheduledPeriodicTap → Option ℕ
tap_deadline none = none
tap_deadline (some scheduled) = some scheduled.release_at

unfoldable pub next_deadline : PeriodicRuntime → Option ℕ
next_deadline r =
    minimum_deadline (deadline_or (Periodic.next_deadline r.policy) r.policy.reply_holdoff_until)
      (tap_deadline r.pending_tap)

unfoldable pub automatic_due_before_ready : PeriodicRuntime → Bool
automatic_due_before_ready r = is_pending (Periodic.next_deadline r.policy)

unfoldable pub stop_session : PeriodicRuntime → PeriodicRuntime
stop_session r = record { policy = Periodic.stop_session r.policy; pending_tap = none }

unfoldable pub has_pending : PeriodicRuntime → Bool
has_pending r = is_pending r.pending_tap

abbrev pub output_recorded :
    PeriodicRuntime
    → PeriodicPolicy × Result PeriodicError (Unit {0})
    → PeriodicRuntime × Result WorkerOperationError (Unit {0})
output_recorded r (policy, ok _) = (record r { policy = policy }, ok tt)
output_recorded r (policy, err e) = (record r { policy = policy }, err (periodic_operation e))

unfoldable pub record_output :
    PeriodicRuntime → ℕ → OutputResult → PeriodicRuntime × Result WorkerOperationError (Unit {0})
record_output r completed_at completion =
    output_recorded r (record_output_completion r.policy completed_at completion)

abbrev pub evaluated : PeriodicRuntime → EvaluatedPeriodic → PeriodicRuntime × Evaluated
evaluated r (policy, result) = (record r { policy = policy }, result)

unfoldable pub evaluate_readiness :
    PeriodicRuntime
    → ℕ
    → ConnectionSessions
    → Option Handshake
    → ReportSender
    → ReadinessGate
    → PeriodicRuntime × Evaluated
evaluate_readiness r now sessions handshake sender gate =
    evaluated r (evaluate_periodic gate now sessions handshake sender r.policy)

module _ {T : Type 0} (f : F64Ops) (m : ControllerKind) (port : TransportPort T) where
  abbrev pub Handled : Type 0
  Handled = PeriodicRuntime × Io T × WorkerCommandProgress

  abbrev pub committed : PeriodicRuntime → Io T → InputState → Handled
  committed r io candidate =
      (r, record io { input = commit_input io.input candidate }, complete (ok tt))

  unfoldable pub complete_input_candidate :
      PeriodicRuntime → Io T → Result Error InputState → Handled
  complete_input_candidate r io (ok candidate) = committed r io candidate
  complete_input_candidate r io (err e) = (r, io, complete (err (input_error e)))

  abbrev pub tap_begun :
      PeriodicRuntime → ℕ → Io T × Result PeriodicError PendingPeriodicTap → Handled
  tap_begun r release_at (io, ok tap) =
      (record r { pending_tap = some (record { tap = tap; release_at = release_at }) }, io, pending)
  tap_begun r release_at (io, err e) = (r, io, complete (err (periodic_error e)))

  abbrev pub tap_planned :
      PeriodicRuntime → Bool → ℕ → Io T → Result Error (InputState × InputState × ℕ) → Handled
  tap_planned r ready now io (err e) = (r, io, complete (err (input_error e)))
  tap_planned r ready now io (ok plan) =
      let (now_ns, release_at) = periodic_tap_times now plan.2 in
      tap_begun r release_at (begin_tap f m port ready plan io now_ns)

  unfoldable pub handle_command : PeriodicRuntime → PeriodicCommand → Bool → ℕ → Io T → Handled
  unfolding complete_input_candidate periodic_tap_times
  handle_command r (apply candidate) ready now io = committed r io candidate
  handle_command r (periodic_common (press buttons)) ready now io =
      complete_input_candidate r io (press_candidate m io.input.committed buttons)
  handle_command r (periodic_common (release buttons)) ready now io =
      complete_input_candidate r io (release_candidate m io.input.committed buttons)
  handle_command r (periodic_common neutral) ready now io = committed r io State.neutral
  handle_command r (periodic_common (tap_buttons buttons duration)) ready now io =
      tap_planned r ready now io (tap_plan m io.input.committed buttons duration)

  unfoldable pub handle_event :
      PeriodicRuntime → TransportEvent → Io T → PeriodicRuntime × Io T × ReportingEvent
  handle_event r (link_disconnected reason) io = (
    record r { pending_tap = none },
    io,
    session_disconnected reason (replaced_by r.pending_tap disconnected_error),
  )
  handle_event r event io = (r, io, passthrough event)

  abbrev pub due_sent :
      PeriodicRuntime
      → PeriodicPolicy × Io T × Result PeriodicError AutomaticInput
      → PeriodicRuntime × Io T × ReportingDue
  due_sent r (policy, io, ok (sent _)) =
      (record r { policy = policy }, io, record nothing_due { actions = 1 })
  due_sent r (policy, io, ok _) = (record r { policy = policy }, io, nothing_due)
  due_sent r (policy, io, err e) = (
    record r { policy = policy },
    io,
    record nothing_due { actions = 1; errors = periodic_operation e ∷ [] },
  )

  abbrev pub finished_result : Result PeriodicError (Unit {0}) → WorkerCommandProgress
  finished_result (ok _) = complete (ok tt)
  finished_result (err e) = complete (err (periodic_error e))

  abbrev pub tap_finished :
      PeriodicRuntime
      → Io T × Result PeriodicError (Unit {0})
      → PeriodicRuntime × Io T × ReportingDue
  tap_finished r (io, result) = (
    record r { pending_tap = none },
    io,
    record nothing_due {
      actions = 1;
      immediate = true;
      completion = some (finished_result result);
    },
  )

  abbrev pub due_of :
      PeriodicRuntime
      → ℕ
      → Io T
      → Option ScheduledPeriodicTap
      → PeriodicRuntime × Io T × ReportingDue
  due_of r now io none = due_sent r (send_due f m port r.policy io now)
  due_of r now io (some scheduled) =
      if leb scheduled.release_at now
      then tap_finished r (finish f m port scheduled.tap io (protocol_timestamp now))
      else due_sent r (send_due f m port r.policy io now)

  -- After a tap the source sets `immediate` once more where a report is due; it is set already.
  unfoldable pub run_due : PeriodicRuntime → ℕ → Io T → PeriodicRuntime × Io T × ReportingDue
  unfolding nothing_due
  run_due r now io = due_of r now io r.pending_tap

  unfoldable pub cancel_for_shutdown :
      PeriodicRuntime → Io T → PeriodicRuntime × Io T × Option WorkerCommandError
  cancel_for_shutdown r io =
      (record r { pending_tap = none }, io, replaced_by r.pending_tap shutdown_error)

  unfoldable pub periodic : Reporting PeriodicRuntime PeriodicCommand T
  periodic = record {
    begin_session = begin_session;
    begin_handshake = Handshake.new;
    handle_command = handle_command;
    handle_event = handle_event;
    record_output = record_output;
    evaluate_readiness = evaluate_readiness;
    next_deadline = next_deadline;
    automatic_due_before_ready = automatic_due_before_ready;
    run_due = run_due;
    cancel_for_shutdown = cancel_for_shutdown;
    stop_session = stop_session;
    has_pending = has_pending;
  }
