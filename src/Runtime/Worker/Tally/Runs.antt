-- ===== src/Runtime/Worker/Tally/Runs.antt =====
-- The steps of a worker from its start, with the commands that it takes and answers on the way.
use swbt_rs.Base.{ℕ, ◌+◌, ◌≤◌, ◌≡◌, refl, false, arith}
use swbt_rs.Model.Spec.{ControllerKind}
use swbt_rs.Protocol.Facade.{SwitchHidProtocol}
use swbt_rs.Protocol.Floats.{F64Ops}
use swbt_rs.Runtime.Worker.Core.{WorkerCore}
use swbt_rs.Runtime.Worker.Drive.{Surroundings}
use swbt_rs.Runtime.Worker.Lawful.{IsLawful}
use swbt_rs.Runtime.Worker.Open.{from_open_transport}
use swbt_rs.Runtime.Worker.PeriodicReporting.{is_pending}
use swbt_rs.Runtime.Worker.Reporting.{Reporting}
use swbt_rs.Runtime.Worker.Step.{step_runtime}
use swbt_rs.Runtime.Worker.Tally.{bit, owed, IsSound, Ends}
use swbt_rs.Runtime.Worker.Tally.Step.{step_runtime-Ends}
use swbt_rs.Runtime.Worker.Types.{StepProgress, WorkerStep, continues}

-- What the other side of the transport and of the command channel does between two steps.
abbrev pub meanwhile : {R T : Type 0} → WorkerCore R T → T → WorkerCore R T
meanwhile core t = record core { io = record core.io { transport = t } }

module _ {R C T : Type 0} (f : F64Ops) (p : SwitchHidProtocol) (m : ControllerKind)
    (env : Surroundings T C) (ops : Reporting R C T) where
  -- The last two numbers count the commands taken and the answers given.
  pub data Serves (budget : ℕ) (start : WorkerCore R T) : WorkerCore R T → ℕ → ℕ → Type 0 where
    started : Serves budget start start 0 0
    stepped :
        (core core' : WorkerCore R T) (taken answered : ℕ) (t : T) (progress : StepProgress)
        → Serves budget start core taken answered
        → step_runtime f p m env ops budget (meanwhile core t) ≡ (core', continues progress)
        → Serves budget start core'
            (taken + progress.commands)
            (answered + bit (is_pending progress.command_result))

  abbrev pub Balanced : WorkerCore R T → ℕ → ℕ → Type 0
  Balanced core taken answered =
      (answered + owed ops core ≡ taken) × (owed ops core ≤ 1) × IsSound ops core

  abbrev EndsPair : ℕ → WorkerCore R T × WorkerStep → Type 0
  EndsPair base ended = Ends ops base ended.0 ended.1

  Serves-Balanced :
      IsLawful ops
      → (budget : ℕ) (start core : WorkerCore R T) (taken answered : ℕ) → Balanced start 0 0
      → Serves budget start core taken answered
      → Balanced core taken answered
  Serves-Balanced lawful budget start _ _ _ balanced started = balanced
  Serves-Balanced lawful budget start _ _ _ balanced
        (stepped core core' taken answered t progress serves e) =
      let (balance, bound, sound) =
        Serves-Balanced lawful budget start core taken answered balanced serves in
      let ends : EndsPair (owed ops core) (core', continues progress) =
        rw e at (step_runtime-Ends f p m env ops lawful budget (meanwhile core t) bound sound) in
      let ((balance', bound', _), sound') = ends in (omega arith, omega arith, sound')

  -- For a reporting mode that keeps the laws of the interface and has no tap pending at the start: at
  -- every moment between two steps of a worker, the commands it has taken are those it has answered
  -- and the pending ones, of which there is one at most; a tap is pending only in the state ready, and
  -- a connection is in progress only in the state connecting.
  pub serves-Balanced :
      IsLawful ops
      → (budget : ℕ) (reporting : R) (transport : T) (core : WorkerCore R T) (taken answered : ℕ)
      → ops.has_pending reporting ≡ false
      → Serves budget (from_open_transport reporting transport) core taken answered
      → Balanced core taken answered
  unfolding from_open_transport
  serves-Balanced lawful budget reporting transport core taken answered no_tap serves =
      let start : WorkerCore R T = from_open_transport reporting transport in
      let balanced : Balanced start 0 0 =
        (rw no_tap refl, rw no_tap (omega arith), (rw no_tap tt, tt)) in
      Serves-Balanced lawful budget start core taken answered balanced serves
