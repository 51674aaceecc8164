-- ===== src/Runtime/Worker/Tally/Close.antt =====
-- The end of the worker settles the commands.
use swbt_rs.Base.{ℕ, ◌≡◌, refl, ap, Bool, false, Option, none, some, arith, err}
use swbt_rs.Model.Spec.{ControllerKind}
use swbt_rs.Protocol.Facade.{SwitchHidProtocol}
use swbt_rs.Protocol.Floats.{F64Ops}
use swbt_rs.Runtime.Cleanup
use swbt_rs.Runtime.Clock.{protocol_timestamp}
use swbt_rs.Runtime.Lifecycle.{RuntimeState}
use swbt_rs.Runtime.Transport.{Io}
use swbt_rs.Runtime.Worker.Core
use swbt_rs.Runtime.Worker.Core.{WorkerCore, ConnectionWork, Act, observe_topology}
use swbt_rs.Runtime.Worker.Drive.{
  Surroundings, close_cancelled, close, fail, sequence_of, failure_of, cleaned,
}
use swbt_rs.Runtime.Worker.Lawful.{IsLawful, Interrupts}
use swbt_rs.Runtime.Worker.PeriodicReporting.{is_pending}
use swbt_rs.Runtime.Worker.Reporting.{Reporting}
use swbt_rs.Runtime.Worker.Tally.{bit, Tally, owed, Good, Ends}
use swbt_rs.Runtime.Worker.Tally.Core.{complete_connection_command-Tally}
use swbt_rs.Runtime.Worker.Types.{
  ShutdownRequest, WorkerCommandError, WorkerCoreError, StepProgress, shutdown_error,
}

module _ {R C T : Type 0} (f : F64Ops) (p : SwitchHidProtocol) (m : ControllerKind)
    (env : Surroundings T C) (ops : Reporting R C T) (lawful : IsLawful ops) where
  cleaned-Ends :
      (base : ℕ) (core : WorkerCore R T) (interrupted : Option WorkerCommandError)
      (progress : StepProgress) (result : RuntimeState × Io T × Cleanup.CloseCompletion)
      → Tally base (bit (is_pending interrupted)) progress
      → owed ops core ≡ 0
      → Ends ops base
          (cleaned f p m env ops core interrupted progress result).0
          (cleaned f p m env ops core interrupted progress result).1
  cleaned-Ends base core interrupted progress (lifecycle, io, completion) tally settled =
      (tally, settled)

  interrupted_bit :
      (before after : Bool) (completion : Option WorkerCommandError)
      → Interrupts before after completion
      → bit before ≡ bit (is_pending completion)
  interrupted_bit before after none (h, _) = ap bit h
  interrupted_bit before after (some _) (h, _) = ap bit h

  close_cancelled-Ends :
      (base : ℕ) (core : WorkerCore R T) (request : ShutdownRequest) (now : ℕ)
      (progress : StepProgress) (result : R × Io T × Option WorkerCommandError)
      → Interrupts (ops.has_pending core.reporting) (ops.has_pending result.0) result.2
      → Tally base (owed ops core) progress
      → is_pending core.connection_command_pending ≡ false
      → Ends ops base
          (close_cancelled f p m env ops core request now progress result).0
          (close_cancelled f p m env ops core request now progress result).1
  close_cancelled-Ends base core request now progress (reporting, io, interrupted) ends
        (balance, bound, sane) settled =
      let same =
        interrupted_bit (ops.has_pending core.reporting) (ops.has_pending reporting) interrupted
          ends in
      let stopped = lawful.stop_session reporting in
      let balance' = rw settled at (rw same at balance) in
      cleaned-Ends base (record core { reporting = ops.stop_session reporting }) interrupted
        progress
        (Cleanup.run f m env.port (sequence_of f p m env ops request) core.connected
          (protocol_timestamp now) core.lifecycle io)
        (omega arith, bound, sane) (rw stopped (rw settled refl))

  pub close-Ends :
      (base : ℕ) (core : WorkerCore R T) (request : ShutdownRequest) (now : ℕ)
      (progress : StepProgress)
      → Good ops base core progress
      → Ends ops base
          (close f p m env ops core request now progress).0
          (close f p m env ops core request now progress).1
  unfolding close Core.complete_connection_command
  close-Ends base core request now progress (tally, _) =
      close_cancelled-Ends base (record core { connection_command_pending = none }) request now
        (Core.complete_connection_command core progress (err shutdown_error)).1
        (ops.cancel_for_shutdown core.reporting core.io)
        (lawful.cancel_for_shutdown core.reporting core.io)
        (complete_connection_command-Tally ops lawful base core progress (err shutdown_error) tally)
        refl

  pub fail-Ends :
      (base : ℕ) (core : WorkerCore R T) (error : WorkerCoreError) (progress : StepProgress)
      → Good ops base core progress
      → Ends ops base
          (fail f p m env ops core error progress).0
          (fail f p m env ops core error progress).1
  unfolding fail Core.complete_connection_failure
  fail-Ends base core error progress (tally, _) =
      complete_connection_command-Tally ops lawful base core progress
        (Core.failure_result core.connection_command_pending (failure_of f p m env ops error)) tally
