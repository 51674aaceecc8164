-- ===== src/Runtime/Worker/Types.antt =====
-- src/runtime/worker.rs: the commands, the errors and the progress of the worker.
pub mod Wait
use swbt_rs.Base.{
  ℕ, min, Bool, true, false, Option, none, some, List, [], ◌∷◌, ◌++◌, leb, if◌then◌else◌, Result,
  err,
}
use swbt_rs.Error.{Error}
use swbt_rs.Model.Button.{ButtonKind}
use swbt_rs.Input.State.{InputState}
use swbt_rs.Runtime.Cleanup.{CloseMode, CloseCompletion}
use swbt_rs.Runtime.Direct
use swbt_rs.Runtime.Direct.{DirectTapError}
use swbt_rs.Runtime.Lifecycle.{LifecycleCommandError}
use swbt_rs.Runtime.Output.{OutputHandlingError, transport_failed, protocol_failed}
use swbt_rs.Runtime.Periodic
use swbt_rs.Runtime.Periodic.{PeriodicError, not_ready, scheduler_failed}
use swbt_rs.Runtime.Readiness.{ReadinessError}
use swbt_rs.Runtime.Scheduler.{SchedulerError}
use swbt_rs.Runtime.Transport.{TransportError, is_rejected}

pub data ShutdownRequest : Type 0 where
  explicit_close : CloseMode → ShutdownRequest
  dropped : ShutdownRequest

pub data CommonCommand : Type 0 where
  press release : List ButtonKind → CommonCommand
  -- buttons, duration
  tap_buttons : List ButtonKind → ℕ → CommonCommand
  neutral : CommonCommand

pub data PeriodicCommand : Type 0 where
  periodic_common : CommonCommand → PeriodicCommand
  apply : InputState → PeriodicCommand

pub data DirectCommand : Type 0 where
  direct_common : CommonCommand → DirectCommand
  send : InputState → DirectCommand

pub data RuntimeCommand (C : Type 0) : Type 0 where
  -- timeout
  pair reconnect : ℕ → RuntimeCommand C
  input : C → RuntimeCommand C

pub data WorkerCoreError : Type 0 where
  invalid_lifecycle : WorkerCoreError
  handshake_failed : SchedulerError → WorkerCoreError
  core_transport : TransportError → WorkerCoreError

pub data ConnectionCommandFailure : Type 0 where
  begin_failed : WorkerCoreError → ConnectionCommandFailure
  readiness_failed : ReadinessError → ConnectionCommandFailure
  key_store_failed worker_failed : ConnectionCommandFailure

pub data ConnectionCommandKind : Type 0 where
  pair_command reconnect_command : ConnectionCommandKind

pub record ConnectionCommandError : Type 0 where
  pub command : ConnectionCommandKind
  pub failure : ConnectionCommandFailure

pub data WorkerCommandError : Type 0 where
  input_error : Error → WorkerCommandError
  lifecycle_error : LifecycleCommandError → WorkerCommandError
  connection_error : ConnectionCommandError → WorkerCommandError
  periodic_error : PeriodicError → WorkerCommandError
  direct_error : DirectTapError → WorkerCommandError
  shutdown_error disconnected_error : WorkerCommandError

abbrev pub CommandResult : Type 0
CommandResult = Result WorkerCommandError (Unit {0})

pub data WorkerCommandProgress : Type 0 where
  complete : CommandResult → WorkerCommandProgress
  pending : WorkerCommandProgress

pub data WorkerOperationError : Type 0 where
  output_operation : OutputHandlingError → WorkerOperationError
  periodic_operation : PeriodicError → WorkerOperationError
  readiness_operation : WorkerOperationError

-- `panicked` says that the assertion of `record_command_progress` has failed.
pub record StepProgress : Type 0 where
  pub commands : ℕ
  pub hci_events : ℕ
  pub due_actions : ℕ
  pub skipped_deadlines : ℕ
  pub immediate : Bool
  pub next_deadline : Option ℕ
  pub command_result : Option CommandResult
  pub operation_errors : List WorkerOperationError
  pub panicked : Bool

unfoldable pub no_progress : StepProgress
no_progress = record {
  commands = 0;
  hci_events = 0;
  due_actions = 0;
  skipped_deadlines = 0;
  immediate = false;
  next_deadline = none;
  command_result = none;
  operation_errors = [];
  panicked = false;
}

pub data WorkerWaitRequest : Type 0 where
  activity : WorkerWaitRequest
  activity_or_deadline : ℕ → WorkerWaitRequest

abbrev pub has_passed : Option ℕ → ℕ → Bool
has_passed none now = false
has_passed (some deadline) now = leb deadline now

abbrev pub wait_until : Option ℕ → WorkerWaitRequest
wait_until none = activity
wait_until (some deadline) = activity_or_deadline deadline

unfoldable pub wait_request : StepProgress → ℕ → Option WorkerWaitRequest
wait_request progress now =
    if progress.immediate
    then none
    else if has_passed progress.next_deadline now
    then none
    else some (wait_until progress.next_deadline)

abbrev replaced : StepProgress → CommandResult → Option CommandResult → StepProgress
replaced progress result none = record progress { command_result = some result }
replaced progress result (some _) = record progress {
  command_result = some result;
  panicked = true;
}

unfoldable pub record_command_progress : StepProgress → WorkerCommandProgress → StepProgress
record_command_progress progress pending = progress
record_command_progress progress (complete result) =
    replaced progress result progress.command_result

abbrev pub push_error : StepProgress → WorkerOperationError → StepProgress
push_error progress error = record progress {
  operation_errors = progress.operation_errors ++ (error ∷ []);
}

unfoldable pub minimum_deadline : Option ℕ → Option ℕ → Option ℕ
minimum_deadline (some left) (some right) = some (min left right)
minimum_deadline (some deadline) none = some deadline
minimum_deadline none (some deadline) = some deadline
minimum_deadline none none = none

-- An error that stops the worker, where there is one, and the error that is reported.
unfoldable pub classify_periodic_error : PeriodicError → Option TransportError × PeriodicError
classify_periodic_error (Periodic.transport_failed error (some later_terminal)) =
    (some later_terminal, Periodic.transport_failed error none)
classify_periodic_error (Periodic.transport_failed error none) =
    if is_rejected error
    then (none, Periodic.transport_failed error none)
    else (some error, Periodic.transport_failed error none)
classify_periodic_error not_ready = (none, not_ready)
classify_periodic_error (scheduler_failed e) = (none, scheduler_failed e)

abbrev core_of : Option TransportError → Option WorkerCoreError
core_of none = none
core_of (some error) = some (core_transport error)

abbrev periodic_operation_of :
    Option TransportError × PeriodicError → Option WorkerCoreError × WorkerOperationError
periodic_operation_of (terminal, e) = (core_of terminal, periodic_operation e)

-- `Ok(error)` is `(none, error)`, and a termination has the core error first.
unfoldable pub nonterminal_operation_error :
    WorkerOperationError → Option WorkerCoreError × WorkerOperationError
unfolding classify_periodic_error
nonterminal_operation_error (output_operation (transport_failed error)) =
    if is_rejected error
    then (none, output_operation (transport_failed error))
    else (some (core_transport error), output_operation (transport_failed error))
nonterminal_operation_error (output_operation (protocol_failed e)) =
    (none, output_operation (protocol_failed e))
nonterminal_operation_error (periodic_operation e) =
    periodic_operation_of (classify_periodic_error e)
nonterminal_operation_error readiness_operation = (none, readiness_operation)

abbrev periodic_progress_of :
    Option TransportError × PeriodicError → Option WorkerCoreError × WorkerCommandProgress
periodic_progress_of (terminal, e) = (core_of terminal, complete (err (periodic_error e)))

unfoldable pub nonterminal_command_progress :
    WorkerCommandProgress → Option WorkerCoreError × WorkerCommandProgress
unfolding classify_periodic_error
nonterminal_command_progress (complete (err (direct_error (Direct.transport_failed error)))) =
    if is_rejected error
    then (none, complete (err (direct_error (Direct.transport_failed error))))
    else (
      some (core_transport error),
      complete (err (direct_error (Direct.transport_failed error))),
    )
nonterminal_command_progress (complete (err (periodic_error e))) =
    periodic_progress_of (classify_periodic_error e)
nonterminal_command_progress progress = (none, progress)

pub data WorkerStep : Type 0 where
  continues : StepProgress → WorkerStep
  -- completion, interrupted, progress
  closed : CloseCompletion → Option WorkerCommandError → StepProgress → WorkerStep
  failed : WorkerCoreError → StepProgress → WorkerStep
