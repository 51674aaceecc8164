-- ===== src/Runtime/Worker/Tally/Step.antt =====
-- One step of the worker takes one command at most, and answers each command once.
use swbt_rs.Base.{ℕ, ◌≤◌, refl, ◌&&◌, ◌==◌, arith, by_test, ok, err, ◌>>=◌}
use swbt_rs.Model.Spec.{ControllerKind}
use swbt_rs.Protocol.Facade.{SwitchHidProtocol}
use swbt_rs.Protocol.Floats.{F64Ops}
use swbt_rs.Runtime.Worker.Core.{WorkerCore}
use swbt_rs.Runtime.Worker.Drive.{Surroundings}
use swbt_rs.Runtime.Worker.Lawful.{IsLawful}
use swbt_rs.Runtime.Worker.Reporting.{Reporting}
use swbt_rs.Runtime.Worker.Step.{
  Flow, shutdown_or, is_idle, command_phase, mark_immediate, drive_phase, poll_batches, due_phase,
  step_ended, step_phases, step_runtime,
}
use swbt_rs.Runtime.Worker.Tally.{owed, IsSound, Good, Ends}
use swbt_rs.Runtime.Worker.Types.{StepProgress, no_progress}
use swbt_rs.Runtime.Worker.Tally.Flow.{GoodFlow, bind-Good, shutdown_or-Good}
use swbt_rs.Runtime.Worker.Tally.Commands.{command_phase-Good}
use swbt_rs.Runtime.Worker.Tally.Events.{poll_batches-Good, drive_phase-Good}
use swbt_rs.Runtime.Worker.Tally.Due.{due_phase-Good}

module _ {R C T : Type 0} (f : F64Ops) (p : SwitchHidProtocol) (m : ControllerKind)
    (env : Surroundings T C) (ops : Reporting R C T) (lawful : IsLawful ops) where
  start-Good :
      (core : WorkerCore R T)
      → owed ops core ≤ 1
      → IsSound ops core
      → Good ops (owed ops core) core no_progress
  unfolding no_progress
  start-Good core bound sound = ((omega arith, omega arith, refl), sound)

  mark_immediate-Good :
      (base : ℕ) (core : WorkerCore R T) (progress : StepProgress)
      → Good ops base core progress
      → Good ops base
          (mark_immediate f p m env ops (core, progress)).0
          (mark_immediate f p m env ops (core, progress)).1
  mark_immediate-Good base core progress good =
      by_test {A = WorkerCore R T × StepProgress} (λ state. Good ops base state.0 state.1)
        ((progress.commands == 1) && is_idle f p m env ops core) (λ _. good) λ _. good

  step_ended-Ends :
      (base : ℕ) (flow : Flow f p m env ops)
      → GoodFlow f p m env ops lawful base flow
      → Ends ops base (step_ended f p m env ops flow).0 (step_ended f p m env ops flow).1
  step_ended-Ends base (err end) ends = ends
  step_ended-Ends base (ok (core, progress)) good = good

  -- A step of a worker that has one pending command at most, of a reporting mode that keeps the laws
  -- of the interface, with the lifecycle as `serves-Balanced` states it: the commands that were pending
  -- and the one it may take are as many as those whose answer is in its progress and those that are
  -- then pending; where the step closes the worker, the latter are only the tap that the close
  -- interrupts. There is one answer at most in the progress, no assertion fails, and a worker that goes
  -- on is again such a worker.
  pub step_runtime-Ends :
      (budget : ℕ) (core : WorkerCore R T)
      → owed ops core ≤ 1
      → IsSound ops core
      → Ends ops
          (owed ops core)
          (step_runtime f p m env ops budget core).0
          (step_runtime f p m env ops budget core).1
  unfolding step_runtime step_phases
  step_runtime-Ends budget core bound sound =
      let base = owed ops core in
      let start =
        shutdown_or f p m env ops core no_progress
          (λ core. command_phase f p m env ops core no_progress) in
      let polled =
        start
        >>= (λ state. poll_batches f p m env ops budget (mark_immediate f p m env ops state)) in
      let driven = polled >>= (λ state. drive_phase f p m env ops state.0 state.1) in
      step_ended-Ends base (driven >>= due_phase f p m env ops) (
        bind-Good f p m env ops lawful base driven (due_phase f p m env ops)
          (due_phase-Good f p m env ops lawful base)
          (bind-Good f p m env ops lawful base polled
            (λ state. drive_phase f p m env ops state.0 state.1)
            (drive_phase-Good f p m env ops lawful base)
            (bind-Good f p m env ops lawful base start
              (λ state. poll_batches f p m env ops budget (mark_immediate f p m env ops state))
              (λ core progress good.
                poll_batches-Good f p m env ops lawful base budget
                  (mark_immediate f p m env ops (core, progress)).0
                  (mark_immediate f p m env ops (core, progress)).1
                  (mark_immediate-Good base core progress good))
              (shutdown_or-Good f p m env ops lawful base core no_progress
                (λ core. command_phase f p m env ops core no_progress)
                (λ core good. command_phase-Good f p m env ops lawful base core good)
                (start-Good core bound sound)))))
