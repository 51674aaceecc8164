-- ===== src/Runtime/Worker/Tally/Commands.antt =====
-- A command that the worker takes is answered at once, or is the one that is pending.
use swbt_rs.Base.{
  ℕ, suc, ◌+◌, ◌≡◌, refl, ◌∙◌, Bool, true, false, not, ◌&&◌, Option, none, some, arith, by_test,
  Result, ok, err,
}
use swbt_rs.Model.Spec.{ControllerKind}
use swbt_rs.Protocol.Facade.{SwitchHidProtocol}
use swbt_rs.Protocol.Floats.{F64Ops}
use swbt_rs.Runtime.Lifecycle
use swbt_rs.Runtime.Lifecycle.{RuntimeState, LifecycleCommandError, ensure_input_command, opened}
use swbt_rs.Runtime.Direct
use swbt_rs.Runtime.Transport.{TransportResult, Io, is_rejected}
use swbt_rs.Runtime.Worker.Core
use swbt_rs.Runtime.Worker.Core.{WorkerCore, Act, connection_begun}
use swbt_rs.Runtime.Worker.Drive.{Surroundings, with_transport, read_clock}
use swbt_rs.Runtime.Worker.Lawful.{IsLawful, CommandKeeps}
use swbt_rs.Runtime.Worker.PeriodicReporting.{is_pending}
use swbt_rs.Runtime.Worker.Reporting.{Reporting}
use swbt_rs.Runtime.Worker.Step.{
  is_state_ready, is_state_connecting, progress_recorded, began, begun_at, start_done,
  input_handled, input_at, input_allowed, run_command, command_run, command_taken, is_idle,
  command_phase,
}
use swbt_rs.Runtime.Worker.Tally.{Tally, Tally-record, owed, IsSound, Good}
use swbt_rs.Runtime.Worker.Types.{
  CommandResult, RuntimeCommand, pair, reconnect, input, ConnectionCommandKind, pair_command,
  reconnect_command, WorkerCoreError, WorkerCommandProgress, complete, pending, StepProgress,
  no_progress, record_command_progress, nonterminal_command_progress, classify_periodic_error,
  input_error, connection_error, lifecycle_error, periodic_error, direct_error, shutdown_error,
  disconnected_error,
}
use swbt_rs.Runtime.Worker.Tally.Flow.{GoodFlow, command_recorded-Good}

-- A completion stays a completion when its error stops the worker.
nonterminal-complete {ℓ} :
    (P : WorkerCommandProgress → Type ℓ) (result : CommandResult)
    → ((result : CommandResult) → P (complete result))
    → P (nonterminal_command_progress (complete result)).1
unfolding nonterminal_command_progress classify_periodic_error
nonterminal-complete P (ok _) always = always (ok tt)
nonterminal-complete P (err (input_error e)) always = always (err (input_error e))
nonterminal-complete P (err (lifecycle_error e)) always = always (err (lifecycle_error e))
nonterminal-complete P (err (connection_error e)) always = always (err (connection_error e))
nonterminal-complete P (err (periodic_error e)) always =
    always (err (periodic_error (classify_periodic_error e).1))
nonterminal-complete P (err (direct_error (Direct.transport_failed error))) always =
    by_test {A = Option WorkerCoreError × WorkerCommandProgress} (λ r. P r.1) (is_rejected error)
      (λ _. always (err (direct_error (Direct.transport_failed error))))
      λ _. always (err (direct_error (Direct.transport_failed error)))
nonterminal-complete P (err (direct_error e)) always = always (err (direct_error e))
nonterminal-complete P (err shutdown_error) always = always (err shutdown_error)
nonterminal-complete P (err disconnected_error) always = always (err disconnected_error)

pub recorded-Tally :
    (base waiting : ℕ) (progress : StepProgress) (result : CommandResult)
    → Tally base (suc waiting) progress
    → Tally base waiting
        (progress_recorded progress (nonterminal_command_progress (complete result))).0
recorded-Tally base waiting progress result tally =
    nonterminal-complete (λ result. Tally base waiting (record_command_progress progress result))
      result λ result. Tally-record base waiting progress result tally

pending-recorded :
    (progress : StepProgress)
    → (progress_recorded progress (nonterminal_command_progress pending)).0 ≡ progress
unfolding nonterminal_command_progress record_command_progress
pending-recorded progress = refl

begin_connection-connecting :
    (state : RuntimeState)
    → (Lifecycle.begin_connection state).1 ≡ true
    → is_state_connecting (Lifecycle.begin_connection state).0 ≡ true
unfolding Lifecycle.begin_connection
begin_connection-connecting opened h = refl
begin_connection-connecting Lifecycle.connecting h = absurd (ground (arith, h))
begin_connection-connecting Lifecycle.ready h = absurd (ground (arith, h))
begin_connection-connecting Lifecycle.closing h = absurd (ground (arith, h))
begin_connection-connecting Lifecycle.failed h = absurd (ground (arith, h))

module _ {R C T : Type 0} (f : F64Ops) (p : SwitchHidProtocol) (m : ControllerKind)
    (env : Surroundings T C) (ops : Reporting R C T) (lawful : IsLawful ops) where
  -- What a command leaves: the answer to it, or the command that is pending.
  abbrev Ran : WorkerCore R T → WorkerCommandProgress → Type 0
  Ran core (complete _) = (owed ops core ≡ 0) × IsSound ops core
  Ran core pending = (owed ops core ≡ 1) × IsSound ops core

  abbrev RanPair : WorkerCore R T × WorkerCommandProgress → Type 0
  RanPair (core, result) = Ran core result

  -- Nothing is pending.
  abbrev IsIdle : WorkerCore R T → Type 0
  IsIdle core =
      (is_pending core.connection_command_pending ≡ false)
      × (ops.has_pending core.reporting ≡ false)
      × IsSound ops core

  owed_idle : (core : WorkerCore R T) → IsIdle core → owed ops core ≡ 0
  owed_idle core (no_command, no_tap, _) = rw no_command (rw no_tap refl)

  idle-RanPair :
      (core : WorkerCore R T) (result : CommandResult) → IsIdle core → Ran core (complete result)
  idle-RanPair core result idle = (owed_idle core idle, idle.2)

  began-Ran :
      (command : ConnectionCommandKind) (core : WorkerCore R T) (now timeout : ℕ)
      → IsIdle core
      → RanPair (began f p m env ops command (Core.begin_connection ops core now timeout))
  unfolding Core.begin_connection
  began-Ran command core now timeout idle =
      by_test (λ begun. RanPair (began f p m env ops command begun))
        (Lifecycle.begin_connection core.lifecycle).1
        (λ h.
          let no_tap = lawful.begin_session core.reporting (Core.parts_of ops core) ∙ idle.1 in
          (rw no_tap refl, (rw no_tap tt, begin_connection-connecting core.lifecycle h)))
        λ _. (owed_idle core idle, idle.2)

  begun_at-Ran :
      (command : ConnectionCommandKind) (timeout : ℕ) (read : WorkerCore R T × ℕ)
      → IsIdle read.0
      → RanPair (begun_at f p m env ops command timeout read)
  begun_at-Ran command timeout (core, now) idle = began-Ran command core now timeout idle

  start_done-Ran :
      (command : ConnectionCommandKind) (timeout : ℕ)
      (started : WorkerCore R T × TransportResult (Unit {0}))
      → IsIdle started.0
      → RanPair (start_done f p m env ops command timeout started)
  start_done-Ran command timeout (core, err e) idle = (owed_idle core idle, idle.2)
  start_done-Ran command timeout (core, ok _) idle =
      begun_at-Ran command timeout (read_clock f p m env ops core) idle

  input_handled-Ran :
      (core : WorkerCore R T) (reporting : R) (io : Io T) (result : WorkerCommandProgress)
      → CommandKeeps false (is_state_ready core.lifecycle) (ops.has_pending reporting) result
      → IsIdle core
      → RanPair (input_handled f p m env ops core (reporting, io, result))
  input_handled-Ran core reporting io (complete _) no_tap (no_command, _, (_, connects)) =
      (rw no_command (rw no_tap refl), (rw no_tap tt, connects))
  input_handled-Ran core reporting io pending (tap, is_ready) (no_command, _, (_, connects)) =
      (rw no_command (rw tap refl), (rw tap is_ready, connects))

  input_at-Ran :
      (command : C) (read : WorkerCore R T × ℕ)
      → IsIdle read.0
      → RanPair (input_at f p m env ops command read)
  input_at-Ran command (core, now) idle =
      let is_ready = is_state_ready core.lifecycle in
      input_handled-Ran core (ops.handle_command core.reporting command is_ready now core.io).0
        (ops.handle_command core.reporting command is_ready now core.io).1
        (ops.handle_command core.reporting command is_ready now core.io).2
        (rw idle.1 at (lawful.handle_command core.reporting command is_ready now core.io)) idle

  input_allowed-Ran :
      (core : WorkerCore R T) (command : C) (allowed : Result LifecycleCommandError (Unit {0}))
      → IsIdle core
      → RanPair (input_allowed f p m env ops core command allowed)
  input_allowed-Ran core command (err e) idle = (owed_idle core idle, idle.2)
  input_allowed-Ran core command (ok _) idle =
      input_at-Ran command (read_clock f p m env ops core) idle

  run_command-Ran :
      (core : WorkerCore R T) (command : RuntimeCommand C)
      → IsIdle core
      → RanPair (run_command f p m env ops core command)
  unfolding run_command
  run_command-Ran core (pair timeout) idle =
      start_done-Ran pair_command timeout
        (with_transport f p m env ops core (env.port.start_pairing core.io.transport)) idle
  run_command-Ran core (reconnect timeout) idle =
      start_done-Ran reconnect_command timeout
        (with_transport f p m env ops core (env.port.start_reconnect core.io.transport)) idle
  run_command-Ran core (input command) idle =
      input_allowed-Ran core command (ensure_input_command core.lifecycle) idle

  -- The progress has taken one command, and has no answer yet.
  command_run-Good :
      (base : ℕ) (progress : StepProgress) (ran : WorkerCore R T × WorkerCommandProgress)
      → Tally base 1 progress
      → RanPair ran
      → GoodFlow f p m env ops lawful base (command_run f p m env ops progress ran)
  command_run-Good base progress (core, complete result) tally (settled, sound) =
      command_recorded-Good f p m env ops lawful base core
        (progress_recorded progress (nonterminal_command_progress (complete result)))
        (rw settled (recorded-Tally base 0 progress result tally), sound)
  command_run-Good base progress (core, pending) tally (owes, sound) =
      command_recorded-Good f p m env ops lawful base core
        (progress_recorded progress (nonterminal_command_progress pending))
        (rw owes (rw (pending-recorded progress) tally), sound)

  command_taken-Good :
      (taken : WorkerCore R T × Option (RuntimeCommand C))
      → IsIdle taken.0
      → GoodFlow f p m env ops lawful 0 (command_taken f p m env ops no_progress taken)
  unfolding no_progress
  command_taken-Good (core, none) idle =
      (rw (owed_idle core idle) (refl, omega arith, refl), idle.2)
  command_taken-Good (core, some command) idle =
      command_run-Good 0 (record no_progress { commands = 0 + 1 })
        (run_command f p m env ops core command) (refl, omega arith, refl)
        (run_command-Ran core command idle)

  idle_parts :
      (command_pending tap_pending : Bool)
      → not command_pending && not tap_pending ≡ true
      → (command_pending ≡ false) × (tap_pending ≡ false)
  idle_parts false false h = (refl, refl)
  idle_parts false true h = absurd (ground (arith, h))
  idle_parts true false h = absurd (ground (arith, h))
  idle_parts true true h = absurd (ground (arith, h))

  nothing_pending :
      (base : ℕ) (core : WorkerCore R T)
      → IsIdle core
      → Tally base (owed ops core) no_progress
      → base ≡ 0
  unfolding no_progress
  nothing_pending base core idle (balance, _, _) = let none' = owed_idle core idle in omega arith

  pub command_phase-Good :
      (base : ℕ) (core : WorkerCore R T)
      → Good ops base core no_progress
      → GoodFlow f p m env ops lawful base (command_phase f p m env ops core no_progress)
  unfolding command_phase
  command_phase-Good base core good =
      by_test (GoodFlow f p m env ops lawful base) (is_idle f p m env ops core)
        (λ h.
          let parts =
            idle_parts (is_pending core.connection_command_pending) (ops.has_pending core.reporting)
              h in
          let idle : IsIdle core = (parts.0, parts.1, good.1) in
          rw (nothing_pending base core idle good.0) (
            command_taken-Good (with_transport f p m env ops core (env.try_next core.io.transport))
              idle))
        λ _. good
