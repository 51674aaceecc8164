-- ===== src/Runtime/Worker/Lawful/Periodic.antt =====
-- The periodic mode keeps the laws of the interface.
use swbt_rs.Base.{
  ℕ, ◌≡◌, refl, ap, Bool, true, false, Option, none, some, leb, by_test, Result, ok, err,
}
use swbt_rs.Error.{Error}
use swbt_rs.Model.Spec.{ControllerKind}
use swbt_rs.Input.State.{InputState}
use swbt_rs.Controller.Input.{press_candidate, release_candidate, tap_plan}
use swbt_rs.Protocol.Floats.{F64Ops}
use swbt_rs.Runtime.Clock.{protocol_timestamp}
use swbt_rs.Runtime.Periodic
use swbt_rs.Runtime.Periodic.{
  PeriodicPolicy, PeriodicError, PendingPeriodicTap, AutomaticInput, sent, tick_not_due, held_off,
  backpressured, send_due, record_output_completion,
}
use swbt_rs.Runtime.Readiness.{evaluate_periodic}
use swbt_rs.Runtime.Readiness.Laws.{evaluate_periodic-Answers_of}
use swbt_rs.Runtime.Transport.{
  TransportEvent, link_connected, hid_channel_opened, hid_output, link_disconnected, TransportPort,
  Io,
}
use swbt_rs.Runtime.Worker.Lawful.{
  CommandKeeps, unless_pending, Interrupts, EventKeeps, DueKeeps, IsLawful,
}
use swbt_rs.Runtime.Worker.Lawful.Panics.{Anything, Kept-Anything, Answers-NoPanic}
use swbt_rs.Runtime.Worker.PeriodicReporting
use swbt_rs.Runtime.Worker.PeriodicReporting.{
  PeriodicRuntime, ScheduledPeriodicTap, is_pending, replaced_by, has_pending, output_recorded,
  record_output, evaluate_readiness, Handled, complete_input_candidate, tap_begun, tap_planned,
  handle_command, handle_event, due_sent, finished_result, due_of, run_due, cancel_for_shutdown,
  stop_session, periodic_tap_times, periodic,
}
use swbt_rs.Runtime.Worker.Reporting.{ReportingDue, nothing_due}
use swbt_rs.Runtime.Worker.Types.{
  PeriodicCommand, periodic_common, apply, press, release, tap_buttons, neutral, WorkerCommandError,
}

replaced-Interrupts {ℓ} :
    {A : Type ℓ} (held : Option A) (error : WorkerCommandError)
    → Interrupts (is_pending held) false (replaced_by held error)
replaced-Interrupts none error = (refl, refl)
replaced-Interrupts (some _) error = (refl, refl)

output_kept :
    (r : PeriodicRuntime) (recorded : PeriodicPolicy × Result PeriodicError (Unit {0}))
    → (output_recorded r recorded).0.pending_tap ≡ r.pending_tap
output_kept r (policy, ok _) = refl
output_kept r (policy, err _) = refl

module _ {T : Type 0} (f : F64Ops) (m : ControllerKind) (port : TransportPort T) where
  abbrev Keeps : Bool → Handled f m port → Type 0
  Keeps is_ready (r, _, result) = CommandKeeps false is_ready (has_pending r) result

  candidate-Keeps :
      (r : PeriodicRuntime) (is_ready : Bool) (io : Io T) (candidate : Result Error InputState)
      → has_pending r ≡ false
      → Keeps is_ready (complete_input_candidate f m port r io candidate)
  unfolding complete_input_candidate
  candidate-Keeps r is_ready io (ok _) h = h
  candidate-Keeps r is_ready io (err _) h = h

  started-Keeps :
      (r : PeriodicRuntime) (is_ready : Bool) (release_at : ℕ)
      (begun : Io T × Result PeriodicError PendingPeriodicTap)
      → is_ready ≡ true
      → has_pending r ≡ false
      → Keeps is_ready (tap_begun f m port r release_at begun)
  unfolding has_pending
  started-Keeps r is_ready release_at (io, ok tap) e h = (refl, e)
  started-Keeps r is_ready release_at (io, err _) e h = h

  begun-Keeps :
      (r : PeriodicRuntime) (is_ready : Bool) (release_at now_ns : ℕ)
      (plan : InputState × InputState × ℕ) (io : Io T)
      → has_pending r ≡ false
      → Keeps is_ready
          (tap_begun f m port r release_at (Periodic.begin_tap f m port is_ready plan io now_ns))
  unfolding Periodic.begin_tap
  begun-Keeps r is_ready release_at now_ns (pressed, released, duration) io h =
      by_test (λ begun. Keeps is_ready (tap_begun f m port r release_at begun)) is_ready
        (λ e.
          started-Keeps r is_ready release_at
            (Periodic.tap_begun f m port released
              (Periodic.commit_and_send_candidate f m port io pressed now_ns))
            e h)
        λ _. h

  planned-Keeps :
      (r : PeriodicRuntime) (is_ready : Bool) (now : ℕ) (io : Io T)
      (plan : Result Error (InputState × InputState × ℕ))
      → has_pending r ≡ false
      → Keeps is_ready (tap_planned f m port r is_ready now io plan)
  planned-Keeps r is_ready now io (err _) h = h
  planned-Keeps r is_ready now io (ok plan) h =
      begun-Keeps r is_ready (periodic_tap_times now plan.2).1 (periodic_tap_times now plan.2).0
        plan io h

  command-Keeps :
      (r : PeriodicRuntime) (command : PeriodicCommand) (is_ready : Bool) (now : ℕ) (io : Io T)
      → has_pending r ≡ false
      → Keeps is_ready (handle_command f m port r command is_ready now io)
  unfolding handle_command
  command-Keeps r (apply _) is_ready now io h = h
  command-Keeps r (periodic_common (press buttons)) is_ready now io h =
      candidate-Keeps r is_ready io (press_candidate m io.input.committed buttons) h
  command-Keeps r (periodic_common (release buttons)) is_ready now io h =
      candidate-Keeps r is_ready io (release_candidate m io.input.committed buttons) h
  command-Keeps r (periodic_common neutral) is_ready now io h = h
  command-Keeps r (periodic_common (tap_buttons buttons duration)) is_ready now io h =
      planned-Keeps r is_ready now io (tap_plan m io.input.committed buttons duration) h

  event-Keeps :
      (r : PeriodicRuntime) (event : TransportEvent) (io : Io T)
      → EventKeeps
          (has_pending r)
          (has_pending (handle_event f m port r event io).0)
          (handle_event f m port r event io).2
  unfolding handle_event has_pending
  event-Keeps r (link_disconnected reason) io = replaced-Interrupts r.pending_tap _
  event-Keeps r link_connected io = refl
  event-Keeps r (hid_channel_opened _) io = refl
  event-Keeps r (hid_output _ _) io = refl

  abbrev KeepsDue : Bool → PeriodicRuntime × Io T × ReportingDue → Type 0
  KeepsDue before (r, _, due) = DueKeeps before (has_pending r) due.completion

  sent-KeepsDue :
      (r : PeriodicRuntime) (done : PeriodicPolicy × Io T × Result PeriodicError AutomaticInput)
      → KeepsDue (has_pending r) (due_sent f m port r done)
  unfolding nothing_due has_pending
  sent-KeepsDue r (policy, io, ok tick_not_due) = refl
  sent-KeepsDue r (policy, io, ok (held_off _)) = refl
  sent-KeepsDue r (policy, io, ok (backpressured _)) = refl
  sent-KeepsDue r (policy, io, ok (sent _)) = refl
  sent-KeepsDue r (policy, io, err _) = refl

  finished_complete :
      (result : Result PeriodicError (Unit {0}))
      → DueKeeps true false (some (finished_result f m port result))
  finished_complete (ok _) = (refl, refl)
  finished_complete (err _) = (refl, refl)

  due-KeepsDue :
      (r : PeriodicRuntime) (now : ℕ) (io : Io T) (held : Option ScheduledPeriodicTap)
      → r.pending_tap ≡ held
      → KeepsDue (has_pending r) (due_of f m port r now io held)
  unfolding nothing_due has_pending
  due-KeepsDue r now io none e = sent-KeepsDue r (send_due f m port r.policy io now)
  due-KeepsDue r now io (some scheduled) e =
      by_test (KeepsDue (has_pending r)) (leb scheduled.release_at now)
        (λ _. rw e (
          finished_complete (Periodic.finish f m port scheduled.tap io (protocol_timestamp now)).1))
        λ _. sent-KeepsDue r (send_due f m port r.policy io now)

  -- The periodic mode keeps the laws of the interface: a command that comes when no tap is pending is
  -- answered or leaves one tap pending, and that only when the mode is ready; an event keeps what is
  -- pending, unless it ends the session and then answers the tap; due work answers the tap or keeps it;
  -- a shutdown answers it; no expectation of the evaluation fails.
  pub periodic-IsLawful : IsLawful (periodic f m port)
  unfolding periodic PeriodicReporting.begin_session record_output evaluate_readiness run_due
      cancel_for_shutdown stop_session has_pending
  periodic-IsLawful = record {
    begin_session = λ r parts. refl;
    handle_command = λ r command is_ready now io.
        unless_pending (has_pending r) is_ready
          (has_pending (handle_command f m port r command is_ready now io).0)
          (handle_command f m port r command is_ready now io).2
          (command-Keeps r command is_ready now io);
    handle_event = event-Keeps;
    record_output = λ r now completion.
        ap is_pending (output_kept r (record_output_completion r.policy now completion));
    evaluate_readiness = λ r now sessions h s gate. (
      refl,
      Answers-NoPanic gate now sessions s (evaluate_periodic gate now sessions h s r.policy).1 (
          evaluate_periodic-Answers_of Anything gate now sessions h s r.policy tt
            (Kept-Anything gate.handshake)),
    );
    run_due = λ r now io. due-KeepsDue r now io r.pending_tap refl;
    cancel_for_shutdown = λ r io. replaced-Interrupts r.pending_tap _;
    stop_session = λ r. refl;
  }
