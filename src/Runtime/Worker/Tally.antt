-- ===== src/Runtime/Worker/Tally.antt =====
-- The commands that the worker has taken, against those it has answered and those that are pending.
pub mod Core
pub mod Handle
pub mod Drive
pub mod Close
pub mod Flow
pub mod Events
pub mod Commands
pub mod Due
pub mod Step
pub mod Runs
use swbt_rs.Base.{
  Only, ℕ, zero, suc, ◌+◌, ◌≤◌, ◌≡◌, refl, Bool, true, false, Option, none, some, Option-cases, inl,
  inr, arith, Result, ok, err,
}
use swbt_rs.Runtime.Worker.Core.{WorkerCore, command_answered}
use swbt_rs.Runtime.Worker.PeriodicReporting.{is_pending}
use swbt_rs.Runtime.Worker.Reporting.{Reporting}
use swbt_rs.Runtime.Worker.Step.{is_state_ready, is_state_connecting}
use swbt_rs.Runtime.Worker.Types.{
  ConnectionCommandKind, CommandResult, complete, pending, StepProgress, record_command_progress,
  WorkerStep, continues, closed, failed,
}

abbrev pub bit : Bool → ℕ
bit false = 0
bit true = 1

-- `owed` commands are pending; the others of the `base` that were pending and of those taken since
-- have their answer in the progress, which holds one at most.
abbrev pub Tally : ℕ → ℕ → StepProgress → Type 0
Tally base owed progress =
    (owed + bit (is_pending progress.command_result) ≡ base + progress.commands)
    × (base + progress.commands ≤ 1)
    × (progress.panicked ≡ false)

pub Tally-record :
    (base owed : ℕ) (progress : StepProgress) (result : CommandResult)
    → Tally base (suc owed) progress
    → Tally base owed (record_command_progress progress (complete result))
unfolding record_command_progress
Tally-record base owed progress result (balance, bound, sane) =
    elim (Option-cases progress.command_result) [
      | inl e ↦ rw e (ground (arith, e), bound, sane)
      | inr (answer, e) ↦ absurd (ground (arith, e))
    ]

pub Tally-answered :
    (base owed : ℕ) (progress : StepProgress) (command : Option ConnectionCommandKind)
    (result : CommandResult)
    → Tally base (bit (is_pending command) + owed) progress
    → Tally base (0 + owed) (command_answered progress command result)
Tally-answered base owed progress none result (balance, bound, sane) = (omega arith, bound, sane)
Tally-answered base owed progress (some _) result (balance, bound, sane) =
    let (balance', bound', sane') =
      Tally-record base owed progress result (omega arith, bound, sane) in
    (omega arith, bound', sane')

module _ {R C T : Type 0} (ops : Reporting R C T) where
  abbrev pub owed : WorkerCore R T → ℕ
  owed core =
      bit (is_pending core.connection_command_pending) + bit (ops.has_pending core.reporting)

  -- A tap is pending only when the runtime is ready, and a connection is in progress only when it is
  -- connecting.
  abbrev pub IsSound : WorkerCore R T → Type 0
  IsSound core =
      Only (ops.has_pending core.reporting) (is_state_ready core.lifecycle)
      × Only (is_pending core.connection) (is_state_connecting core.lifecycle)

  abbrev pub Good : ℕ → WorkerCore R T → StepProgress → Type 0
  Good base core progress = Tally base (owed core) progress × IsSound core

  -- What holds at the end of a step: the answer to a tap that a shutdown interrupts is not in the
  -- progress.
  abbrev pub Ends : ℕ → WorkerCore R T → WorkerStep → Type 0
  Ends base core (continues progress) = Good base core progress
  Ends base core (failed _ progress) = Tally base (owed core) progress
  Ends base core (closed _ interrupted progress) =
      Tally base (bit (is_pending interrupted)) progress × (owed core ≡ 0)
