-- ===== src/RuntimeExamples.antt =====
-- Theorems on the worker and its parts at concrete inputs.
use swbt_rs.Base.{
  ℕ, ◌+◌, ◌-◌, ◌*◌, ◌/◌, ◌==◌, ltb, length, ◌≤◌, arith, ◌≡◌, refl, true, false, Option, none, some,
  List, [], ◌∷◌, ◌++◌, ok,
}
use swbt_rs.Model.Spec.{ControllerKind}
use swbt_rs.Protocol.Facade.{SwitchHidProtocol}
use swbt_rs.Protocol.Facade
use swbt_rs.Protocol.Floats.{F64Ops}
use swbt_rs.Runtime.Transport.{TransportPort, Io, control, interrupt}
use swbt_rs.Input.State
use swbt_rs.Input.State.{InputState}
use swbt_rs.Runtime.Cleanup
use swbt_rs.Runtime.Cleanup.{CleanupSequence, CloseCompletion, not_performed, with_neutral}
use swbt_rs.Runtime.Cleanup.Once.{run-run}
use swbt_rs.Runtime.Command.{command_channel}
use swbt_rs.Runtime.Command.Order.{InOrder, use_all, use_all-InOrder, enqueues, takes, delivers}
use swbt_rs.Runtime.Direct
use swbt_rs.Runtime.Direct.Commits.{CommitsBoth, send_candidate-CommitsBoth}
use swbt_rs.Runtime.Handshake.Proper.{Happens, link, channel, steps}
use swbt_rs.Runtime.Lifecycle
use swbt_rs.Runtime.Lifecycle.{RuntimeState}
use swbt_rs.Runtime.Periodic
use swbt_rs.Runtime.Periodic.{PeriodicPolicy}
use swbt_rs.Runtime.Periodic.Effects.{TapEffect, begin_tap-TapEffect}
use swbt_rs.Runtime.Worker.Types.Wait.{Waits, wait_request-Waits}
use swbt_rs.Runtime.Worker.Step
use swbt_rs.Runtime.Worker.Types
use swbt_rs.Runtime.Worker.Drive
use swbt_rs.Runtime.Worker.Core.{WorkerCore}
use swbt_rs.Runtime.Worker.Drive.{Surroundings}
use swbt_rs.Runtime.Worker.Lawful.{IsLawful}
use swbt_rs.Runtime.Worker.Lawful.Periodic.{periodic-IsLawful}
use swbt_rs.Runtime.Worker.Lawful.Direct.{direct-IsLawful}
use swbt_rs.Runtime.Worker.Open.{from_open_transport}
use swbt_rs.Runtime.Worker.PeriodicReporting.{
  PeriodicRuntime, periodic, is_pending, has_pending, handle_command,
}
use swbt_rs.Runtime.Worker.DirectReporting.{direct}
use swbt_rs.Runtime.Worker.Reporting.{Reporting}
use swbt_rs.Runtime.Worker.Step.{step_runtime}
use swbt_rs.Runtime.Worker.Tally.{bit, owed, IsSound, Ends}
use swbt_rs.Runtime.Worker.Tally.Step.{step_runtime-Ends}
use swbt_rs.Runtime.Readiness.{ReadinessGate, evaluate_direct, evaluate_periodic}
use swbt_rs.Runtime.Readiness.Starts.{Starts, evaluate_periodic-Answers}
use swbt_rs.Runtime.Readiness.Laws.{Answers, Own, evaluate_direct-Answers}
use swbt_rs.Runtime.Sender.{ReportSender}
use swbt_rs.Runtime.Sessions.{ConnectionSessions}
use swbt_rs.Protocol.Session
use swbt_rs.Protocol.Session.{standard_full}
use swbt_rs.Runtime.Worker.Tally.Runs.{meanwhile, started, stepped, Balanced, serves-Balanced}
use swbt_rs.Runtime.Worker.Types.{
  PeriodicCommand, RuntimeCommand, input, periodic_common, neutral, StepProgress, WorkerStep,
  continues, closed, failed, no_progress, wait_request, complete,
}

-- A transport that accepts everything and has no events, with a clock and a queue of commands.
record Toy : Type 0 where
  now : ℕ
  commands : List (RuntimeCommand PeriodicCommand)
  sent : List (List ℕ)

abbrev toy_port : TransportPort Toy
toy_port = record {
  start_pairing = λ t. (t, ok tt);
  start_reconnect = λ t. (t, ok tt);
  poll = λ t timeout. (t, ok []);
  interrupt_send_capacity_available = λ _. true;
  send_interrupt = λ t bytes. (record t { sent = t.sent ++ (bytes ∷ []) }, ok tt);
  drain_interrupt = λ t _. (t, ok tt);
  disconnect = λ t. (t, ok tt);
  close = λ t. (t, ok tt);
}

abbrev take_command :
    Toy → List (RuntimeCommand PeriodicCommand) → Toy × Option (RuntimeCommand PeriodicCommand)
take_command t [] = (t, none)
take_command t (command ∷ commands) = (record t { commands = commands }, some command)

abbrev toy : Surroundings Toy PeriodicCommand
toy = record {
  port = toy_port;
  now = λ t. (t, t.now);
  take_shutdown = λ t. (t, none);
  try_next = λ t. take_command t t.commands;
}

abbrev integer_ops : F64Ops
integer_ops = record {
  add = λ a b. a + b;
  sub = λ a b. a - b;
  mul = λ a b. a * b;
  div = λ a b. a / b;
  sum = λ l. length l;
  sqrt = λ a. a;
  sin = λ a. a;
  cos = λ a. a;
  abs = λ a. a;
  to_radians = λ a. a;
  eq = λ a b. a == b;
  lt = λ a b. ltb a b;
  of_u64 = λ a. a;
  of_i32 = λ a. a;
  to_i64 = λ a. a;
}

abbrev hid : SwitchHidProtocol
hid = Facade.new ControllerKind.pro none (0x00 ∷ 0x1B ∷ 0xDC ∷ 0xF9 ∷ 0x9F ∷ 0x7D ∷ [])

abbrev reporting : PeriodicRuntime
reporting = record {
  policy = record { period = 8_000_000; scheduler = none; reply_holdoff_until = none };
  pending_tap = none;
}

abbrev at_start : Toy
at_start = record { now = 0; commands = input (periodic_common neutral) ∷ []; sent = [] }

abbrev ops : Reporting PeriodicRuntime PeriodicCommand Toy
ops = periodic integer_ops ControllerKind.pro toy_port

abbrev worker : WorkerCore PeriodicRuntime Toy
worker = from_open_transport reporting at_start

abbrev step_of : WorkerCore PeriodicRuntime Toy → WorkerCore PeriodicRuntime Toy × WorkerStep
step_of core = step_runtime integer_ops hid ControllerKind.pro toy ops 4 core

abbrev progress_of : WorkerStep → StepProgress
progress_of (continues progress) = progress
progress_of (closed _ _ progress) = progress
progress_of (failed _ progress) = progress

abbrev worker' : WorkerCore PeriodicRuntime Toy
worker' = (step_of (meanwhile worker at_start)).0

first_step :
    step_of (meanwhile worker at_start)
    ≡ (worker', continues (progress_of (step_of (meanwhile worker at_start)).1))
unfolding step_runtime Step.step_phases Step.command_phase Step.run_command from_open_transport
    periodic has_pending handle_command Types.nonterminal_command_progress Lifecycle.new
    Lifecycle.ensure_input_command Step.poll_batches Step.drive_phase Drive.drive_connection
    Types.record_command_progress no_progress Step.due_phase
first_step = refl

abbrev first_progress : StepProgress
first_progress = progress_of (step_of (meanwhile worker at_start)).1

no_tap : ops.has_pending reporting ≡ false
unfolding periodic has_pending
no_tap = refl

serves-Balanced_example :
    Balanced integer_ops hid ControllerKind.pro toy ops worker'
      (0 + first_progress.commands)
      (0 + bit (is_pending first_progress.command_result))
serves-Balanced_example =
    serves-Balanced integer_ops hid ControllerKind.pro toy ops
      (periodic-IsLawful integer_ops ControllerKind.pro toy_port) 4 reporting at_start worker'
      (0 + first_progress.commands) (0 + bit (is_pending first_progress.command_result)) no_tap
      (stepped worker worker' 0 0 at_start first_progress started first_step)

nothing_owed : owed ops worker ≤ 1
unfolding from_open_transport periodic has_pending
nothing_owed = omega arith

worker-IsSound : IsSound ops worker
unfolding from_open_transport periodic has_pending
worker-IsSound = (tt, tt)

step_runtime-Ends_example : Ends ops (owed ops worker) (step_of worker).0 (step_of worker).1
step_runtime-Ends_example =
    step_runtime-Ends integer_ops hid ControllerKind.pro toy ops
      (periodic-IsLawful integer_ops ControllerKind.pro toy_port) 4 worker nothing_owed
      worker-IsSound

periodic-IsLawful_example : IsLawful (periodic integer_ops ControllerKind.pro toy_port)
periodic-IsLawful_example = periodic-IsLawful integer_ops ControllerKind.pro toy_port

direct-IsLawful_example : IsLawful (direct integer_ops hid ControllerKind.pro toy_port)
direct-IsLawful_example = direct-IsLawful integer_ops hid ControllerKind.pro toy_port

abbrev gate : ReadinessGate
gate = record { session_id = 3; operation_deadline = 5_000_000_000; handshake = some 3 }

abbrev sessions : ConnectionSessions
sessions = record { last_issued = 3; current = some 3 }

abbrev ready_sender : ReportSender
ready_sender = record {
  committed = record {
    next_timer = 9;
    session = record Session.default { mode = some standard_full; lights = some 1 };
  };
  input_reports_accepted = 7;
  replies_accepted = 2;
}

evaluate_direct-Answers_example :
    Answers
      (Own gate)
      gate
      1_000
      sessions
      ready_sender
      (evaluate_direct gate 1_000 sessions none ready_sender)
evaluate_direct-Answers_example = evaluate_direct-Answers gate 1_000 sessions none ready_sender refl

evaluate_periodic-Answers_example :
    Answers
      (Own gate)
      gate
      1_000
      sessions
      ready_sender
      (evaluate_periodic gate 1_000 sessions none ready_sender reporting.policy).1
    × Starts reporting.policy 1_000
        (evaluate_periodic gate 1_000 sessions none ready_sender reporting.policy)
evaluate_periodic-Answers_example =
    evaluate_periodic-Answers gate 1_000 sessions none ready_sender reporting.policy refl

abbrev toy_io : Io Toy
toy_io = worker.io

abbrev scheduled : PeriodicPolicy
scheduled = record reporting.policy {
  scheduler = some (record { period = 8_000_000; next_deadline = 108_000_000 });
}

abbrev pressed : InputState
pressed = record State.neutral { buttons = record { bits = 3 } }

begin_tap-TapEffect_example :
    TapEffect integer_ops ControllerKind.pro toy_port true pressed State.neutral toy_io 90_000_000 (
      Periodic.begin_tap integer_ops ControllerKind.pro toy_port true
        (pressed, State.neutral, 80_000_000)
        toy_io
        10_000_000)
begin_tap-TapEffect_example =
    begin_tap-TapEffect integer_ops ControllerKind.pro toy_port true pressed State.neutral
      80_000_000 toy_io 10_000_000 90_000_000

send_candidate-CommitsBoth_example :
    CommitsBoth toy_io pressed
      (Direct.send_candidate integer_ops hid ControllerKind.pro toy_port toy_io pressed 10_000_000)
send_candidate-CommitsBoth_example =
    send_candidate-CommitsBoth integer_ops hid ControllerKind.pro toy_port toy_io pressed 10_000_000

abbrev explicit : CleanupSequence
explicit = record { mode = with_neutral; drain_timeout = 1_000_000_000; drain_interrupt = true }

abbrev first_close : RuntimeState × Io Toy × CloseCompletion
first_close =
    Cleanup.run integer_ops ControllerKind.pro toy_port explicit true 10_000_000 Lifecycle.ready
      toy_io

run-run_example :
    Cleanup.run integer_ops ControllerKind.pro toy_port explicit true 20_000_000 first_close.0
      first_close.1
    ≡ (Lifecycle.closing, first_close.1, not_performed)
run-run_example =
    run-run integer_ops ControllerKind.pro toy_port explicit explicit true true 10_000_000
      20_000_000 Lifecycle.ready toy_io

abbrev waiting : StepProgress
waiting = record no_progress { next_deadline = some 108_000_000 }

wait_request-Waits_example : Waits waiting 100_000_000 (wait_request waiting 100_000_000)
wait_request-Waits_example = wait_request-Waits waiting 100_000_000

use_all-InOrder_example : InOrder (
    use_all
      (enqueues (periodic_common neutral)
        ∷ takes
        ∷ enqueues (periodic_common neutral)
        ∷ delivers (complete (ok tt) ∷ [])
        ∷ [])
      command_channel)
use_all-InOrder_example = use_all-InOrder (
    enqueues (periodic_common neutral)
    ∷ takes
    ∷ enqueues (periodic_common neutral)
    ∷ delivers (complete (ok tt) ∷ [])
    ∷ [])

abbrev ready_io : Io Toy
ready_io = record toy_io { sender = ready_sender }

abbrev handshake_events : List (Happens integer_ops ControllerKind.pro toy_port)
handshake_events =
    link 3 ∷ channel 3 control ∷ channel 3 interrupt ∷ steps 3 10_000_000 ready_io ∷ []
