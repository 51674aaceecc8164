-- ===== src/Runtime/Worker/Step.antt =====
-- src/runtime/worker.rs: one step of the worker, `step_runtime`.
use swbt_rs.Base.{
  ℕ, zero, suc, ◌+◌, Bool, true, false, not, ◌&&◌, ◌||◌, Option, none, some, List, [], ◌∷◌, map,
  ◌==◌, if◌then◌else◌, Result, ok, err, ◌>>=◌,
}
use swbt_rs.Model.Spec.{ControllerKind}
use swbt_rs.Protocol.Facade.{SwitchHidProtocol}
use swbt_rs.Protocol.Floats.{F64Ops}
use swbt_rs.Runtime.Lifecycle.{
  RuntimeState, ready, connecting, LifecycleCommandError, ensure_input_command,
}
use swbt_rs.Runtime.Handshake
use swbt_rs.Runtime.Sessions.{SessionEvent, tag_current}
use swbt_rs.Runtime.Transport.{TransportEvent, TransportResult, Io}
use swbt_rs.Runtime.Worker.Core
use swbt_rs.Runtime.Worker.Core.{WorkerCore, ConnectionWork, Act}
use swbt_rs.Runtime.Worker.Drive.{
  Surroundings, with_transport, read_clock, handle_event, drive_connection, close, fail,
}
use swbt_rs.Runtime.Worker.PeriodicReporting.{is_pending}
use swbt_rs.Runtime.Worker.Reporting.{Reporting, ReportingDue}
use swbt_rs.Runtime.Worker.Types.{
  ShutdownRequest, RuntimeCommand, pair, reconnect, input, ConnectionCommandKind, pair_command,
  reconnect_command, begin_failed, WorkerCoreError, core_transport, connection_error,
  lifecycle_error, WorkerCommandProgress, complete, pending, WorkerOperationError, StepProgress,
  no_progress, record_command_progress, push_error, minimum_deadline, nonterminal_command_progress,
  nonterminal_operation_error, WorkerStep, continues,
}

abbrev pub is_state_ready : RuntimeState → Bool
is_state_ready ready = true
is_state_ready _ = false

abbrev pub is_state_connecting : RuntimeState → Bool
is_state_connecting connecting = true
is_state_connecting _ = false

abbrev pub command_failed : ConnectionCommandKind → WorkerCoreError → WorkerCommandProgress
command_failed command error =
    complete (err (connection_error (record { command = command; failure = begin_failed error })))

abbrev pub handshake_deadline : Option Handshake.Handshake → Option ℕ
handshake_deadline none = none
handshake_deadline (some h) = Handshake.next_deadline h

abbrev pub with_connection : Option ConnectionWork → Option ℕ → Option ℕ
with_connection none deadline = deadline
with_connection (some c) deadline =
    minimum_deadline (minimum_deadline deadline (some c.readiness.operation_deadline))
      (handshake_deadline c.handshake)

abbrev pub first_error : Option WorkerCoreError → Option WorkerCoreError → Option WorkerCoreError
first_error none later = later
first_error (some earlier) later = some earlier

-- The errors of due work, and the first of them that stops the worker.
abbrev pub errors_recorded :
    StepProgress
    → Option WorkerCoreError
    → List WorkerOperationError
    → StepProgress × Option WorkerCoreError
errors_recorded progress terminal [] = (progress, terminal)
errors_recorded progress terminal (error ∷ errors) =
    let (stop, error') = nonterminal_operation_error error in
    errors_recorded (push_error progress error') (first_error terminal stop) errors

abbrev pub progress_recorded :
    StepProgress
    → Option WorkerCoreError × WorkerCommandProgress
    → StepProgress × Option WorkerCoreError
progress_recorded progress (terminal, result) = (record_command_progress progress result, terminal)

abbrev pub completion_recorded :
    StepProgress → Option WorkerCommandProgress → StepProgress × Option WorkerCoreError
completion_recorded progress none = (progress, none)
completion_recorded progress (some completion) =
    progress_recorded progress (nonterminal_command_progress completion)

abbrev pub due_recorded :
    StepProgress × Option WorkerCoreError
    → List WorkerOperationError
    → StepProgress × Option WorkerCoreError
due_recorded (progress, terminal) errors = errors_recorded progress terminal errors

module _ {R C T : Type 0} (f : F64Ops) (p : SwitchHidProtocol) (m : ControllerKind)
    (env : Surroundings T C) (ops : Reporting R C T) where
  abbrev pub W : Type 0
  W = WorkerCore R T

  -- A part of the step that goes on, or ends the step.
  abbrev pub Flow : Type 0
  Flow = Result (W × WorkerStep) (W × StepProgress)

  abbrev pub closed_at : ShutdownRequest → StepProgress → W × ℕ → W × WorkerStep
  closed_at request progress (core, now) = close f p m env ops core request now progress

  abbrev pub shutdown_taken : StepProgress → (W → Flow) → W × Option ShutdownRequest → Flow
  shutdown_taken progress next (core, none) = next core
  shutdown_taken progress next (core, some request) =
      err (closed_at request progress (read_clock f p m env ops core))

  -- `if let Some(request) = shutdown.take() { return self.close(..) }`
  abbrev pub shutdown_or : W → StepProgress → (W → Flow) → Flow
  shutdown_or core progress next =
      shutdown_taken progress next
        (with_transport f p m env ops core (env.take_shutdown core.io.transport))

  abbrev pub fail_unless_shutdown : W → WorkerCoreError → StepProgress → Flow
  fail_unless_shutdown core error progress =
      shutdown_or core progress (λ core. err (fail f p m env ops core error progress))

  abbrev pub began :
      ConnectionCommandKind → W × Result WorkerCoreError ℕ → W × WorkerCommandProgress
  began command (core, ok _) = (record core { connection_command_pending = some command }, pending)
  began command (core, err e) = (core, command_failed command e)

  abbrev pub begun_at : ConnectionCommandKind → ℕ → W × ℕ → W × WorkerCommandProgress
  begun_at command timeout (core, now) = began command (Core.begin_connection ops core now timeout)

  abbrev pub start_done :
      ConnectionCommandKind → ℕ → W × TransportResult (Unit {0}) → W × WorkerCommandProgress
  start_done command timeout (core, err e) = (core, command_failed command (core_transport e))
  start_done command timeout (core, ok _) = begun_at command timeout (read_clock f p m env ops core)

  abbrev pub input_handled : W → R × Io T × WorkerCommandProgress → W × WorkerCommandProgress
  input_handled core (reporting, io, progress) =
      (record core { reporting = reporting; io = io }, progress)

  abbrev pub input_at : C → W × ℕ → W × WorkerCommandProgress
  input_at command (core, now) =
      input_handled core
        (ops.handle_command core.reporting command (is_state_ready core.lifecycle) now core.io)

  abbrev pub input_allowed :
      W → C → Result LifecycleCommandError (Unit {0}) → W × WorkerCommandProgress
  input_allowed core command (err e) = (core, complete (err (lifecycle_error e)))
  input_allowed core command (ok _) = input_at command (read_clock f p m env ops core)

  unfoldable pub run_command : W → RuntimeCommand C → W × WorkerCommandProgress
  run_command core (pair timeout) =
      start_done pair_command timeout
        (with_transport f p m env ops core (env.port.start_pairing core.io.transport))
  run_command core (reconnect timeout) =
      start_done reconnect_command timeout
        (with_transport f p m env ops core (env.port.start_reconnect core.io.transport))
  run_command core (input command) =
      input_allowed core command (ensure_input_command core.lifecycle)

  -- `if let Some(error) = terminal { return self.fail(error, progress) }`
  abbrev pub fail_or_go : Option WorkerCoreError → StepProgress → W → Flow
  fail_or_go none progress core = ok (core, progress)
  fail_or_go (some error) progress core = err (fail f p m env ops core error progress)

  abbrev pub command_recorded : W → StepProgress × Option WorkerCoreError → Flow
  command_recorded core (progress, terminal) =
      shutdown_or core progress (fail_or_go terminal progress)

  abbrev pub command_run : StepProgress → W × WorkerCommandProgress → Flow
  command_run progress (core, result) =
      command_recorded core (progress_recorded progress (nonterminal_command_progress result))

  abbrev pub command_taken : StepProgress → W × Option (RuntimeCommand C) → Flow
  command_taken progress (core, none) = ok (core, progress)
  command_taken progress (core, some command) =
      command_run (record progress { commands = progress.commands + 1 }) (run_command core command)

  abbrev pub is_idle : W → Bool
  is_idle core =
      not (is_pending core.connection_command_pending) && not (ops.has_pending core.reporting)

  unfoldable pub command_phase : W → StepProgress → Flow
  unfolding run_command
  command_phase core progress =
      if is_idle core
      then command_taken progress
          (with_transport f p m env ops core (env.try_next core.io.transport))
      else ok (core, progress)

  abbrev pub mark_immediate : W × StepProgress → W × StepProgress
  mark_immediate (core, progress) =
      if (progress.commands == 1) && is_idle core
      then (core, record progress { immediate = true })
      else (core, progress)

  abbrev pub actions_done : Act R T ℕ → Flow
  actions_done (core, progress, ok actions) =
      ok (core, record progress { due_actions = progress.due_actions + actions })
  actions_done (core, progress, err e) = fail_unless_shutdown core e progress

  abbrev pub then_shutdown : W × StepProgress → Flow
  then_shutdown (core, progress) = shutdown_or core progress (λ core. ok (core, progress))

  abbrev pub drive_at : StepProgress → W × ℕ → Flow
  drive_at progress (core, now) =
      actions_done (drive_connection f p m env ops core now progress) >>= then_shutdown

  unfoldable pub drive_phase : W → StepProgress → Flow
  drive_phase core progress = drive_at progress (read_clock f p m env ops core)

  abbrev pub drive_changed : Bool → StepProgress → W → Flow
  drive_changed true progress core = drive_phase core progress
  drive_changed false progress core = ok (core, progress)

  abbrev pub event_done : Act R T Bool → Flow
  event_done (core, progress, err e) = fail_unless_shutdown core e progress
  event_done (core, progress, ok changed) =
      shutdown_or core progress (drive_changed changed progress)

  abbrev pub tagged_event : W → StepProgress → Option (SessionEvent TransportEvent) → Flow
  tagged_event core progress none = event_done (core, progress, ok false)
  tagged_event core progress (some tag) = event_done (handle_event f p m env ops core tag progress)

  unfoldable pub run_event : Option (SessionEvent TransportEvent) → W × StepProgress → Flow
  unfolding drive_phase
  run_event event (core, progress) =
      tagged_event core (record progress { hci_events = progress.hci_events + 1 }) event

  unfoldable pub run_events : List (Option (SessionEvent TransportEvent)) → W × StepProgress → Flow
  run_events [] state = ok state
  run_events (event ∷ events) state = run_event event state >>= run_events events

  abbrev pub budgeted : Bool → W × StepProgress → Flow
  budgeted true (core, progress) = ok (core, record progress { immediate = true })
  budgeted false state = ok state

  abbrev pub batch_polled :
      Bool
      → StepProgress
      → (W × StepProgress → Flow)
      → W × TransportResult (List TransportEvent)
      → Flow
  batch_polled last progress next (core, err e) =
      fail_unless_shutdown core (core_transport e) progress
  batch_polled last progress next (core, ok []) = ok (core, progress)
  batch_polled last progress next (core, ok (event ∷ events)) =
      run_events (map (tag_current core.sessions) (event ∷ events)) (core, progress)
      >>= budgeted last
      >>= next

  abbrev pub is_zero : ℕ → Bool
  is_zero zero = true
  is_zero (suc _) = false

  -- The loop over the batches that the budget leaves.
  unfoldable pub poll_batches : ℕ → W × StepProgress → Flow
  poll_batches zero state = ok state
  poll_batches (suc left) (core, progress) =
      batch_polled (is_zero left) progress (poll_batches left)
        (with_transport f p m env ops core (env.port.poll core.io.transport 0))

  abbrev pub due_run : StepProgress → W → R × Io T × ReportingDue → Flow
  due_run progress core (reporting, io, due) =
      command_recorded (record core { reporting = reporting; io = io })
        (due_recorded
          (completion_recorded
            (record progress {
              due_actions = progress.due_actions + due.actions;
              immediate = progress.immediate || due.immediate;
            })
            due.completion)
          due.errors)

  abbrev pub due_at : StepProgress → W × ℕ → Flow
  due_at progress (core, now) = due_run progress core (ops.run_due core.reporting now core.io)

  unfoldable pub due_phase : W × StepProgress → Flow
  due_phase (core, progress) =
      if is_state_ready core.lifecycle
        || (is_state_connecting core.lifecycle && ops.automatic_due_before_ready core.reporting)
      then due_at progress (read_clock f p m env ops core)
      else ok (core, progress)

  unfoldable pub next_deadline : W → Option ℕ
  next_deadline core = with_connection core.connection (ops.next_deadline core.reporting)

  abbrev pub step_ended : Flow → W × WorkerStep
  step_ended (err end) = end
  step_ended (ok (core, progress)) = (
    core,
    continues (record progress {
      next_deadline = minimum_deadline progress.next_deadline (next_deadline core);
    }),
  )

  unfoldable pub step_phases : ℕ → W → StepProgress → Flow
  step_phases budget core progress =
      shutdown_or core progress (λ core. command_phase core progress)
      >>= (λ state. poll_batches budget (mark_immediate state))
      >>= (λ state. drive_phase state.0 state.1)
      >>= due_phase

  unfoldable pub step_runtime : ℕ → W → W × WorkerStep
  step_runtime budget core = step_ended (step_phases budget core no_progress)
