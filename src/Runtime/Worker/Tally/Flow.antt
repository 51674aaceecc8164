-- ===== src/Runtime/Worker/Tally/Flow.antt =====
-- A part of a step ends the step or goes on, and a shutdown closes it.
use swbt_rs.Base.{ℕ, Option, none, some, ok, err, ◌>>=◌}
use swbt_rs.Model.Spec.{ControllerKind}
use swbt_rs.Protocol.Facade.{SwitchHidProtocol}
use swbt_rs.Protocol.Floats.{F64Ops}
use swbt_rs.Runtime.Worker.Core.{WorkerCore}
use swbt_rs.Runtime.Worker.Drive.{Surroundings, with_transport, read_clock, fail}
use swbt_rs.Runtime.Worker.Lawful.{IsLawful}
use swbt_rs.Runtime.Worker.Reporting.{Reporting}
use swbt_rs.Runtime.Worker.Step.{
  Flow, closed_at, shutdown_taken, shutdown_or, fail_unless_shutdown, fail_or_go, command_recorded,
}
use swbt_rs.Runtime.Worker.Tally.{Good, Ends}
use swbt_rs.Runtime.Worker.Tally.Close.{close-Ends, fail-Ends}
use swbt_rs.Runtime.Worker.Types.{ShutdownRequest, WorkerCoreError, StepProgress}

module _ {R C T : Type 0} (f : F64Ops) (p : SwitchHidProtocol) (m : ControllerKind)
    (env : Surroundings T C) (ops : Reporting R C T) (lawful : IsLawful ops) where
  abbrev pub GoodFlow : ℕ → Flow f p m env ops → Type 0
  GoodFlow base (ok (core, progress)) = Good ops base core progress
  GoodFlow base (err (core, step)) = Ends ops base core step

  pub bind-Good :
      (base : ℕ) (flow : Flow f p m env ops)
      (next : WorkerCore R T × StepProgress → Flow f p m env ops)
      → ((core : WorkerCore R T) (progress : StepProgress)
          → Good ops base core progress
          → GoodFlow base (next (core, progress)))
      → GoodFlow base flow
      → GoodFlow base (flow >>= next)
  bind-Good base (ok (core, progress)) next goes good = goes core progress good
  bind-Good base (err end) next goes ends = ends

  pub closed_at-Ends :
      (base : ℕ) (request : ShutdownRequest) (progress : StepProgress) (read : WorkerCore R T × ℕ)
      → Good ops base read.0 progress
      → GoodFlow base (err (closed_at f p m env ops request progress read))
  closed_at-Ends base request progress (core, now) good =
      close-Ends f p m env ops lawful base core request now progress good

  pub shutdown_taken-Good :
      (base : ℕ) (progress : StepProgress) (next : WorkerCore R T → Flow f p m env ops)
      (taken : WorkerCore R T × Option ShutdownRequest)
      → ((core : WorkerCore R T) → Good ops base core progress → GoodFlow base (next core))
      → Good ops base taken.0 progress
      → GoodFlow base (shutdown_taken f p m env ops progress next taken)
  shutdown_taken-Good base progress next (core, none) goes good = goes core good
  shutdown_taken-Good base progress next (core, some request) goes good =
      closed_at-Ends base request progress (read_clock f p m env ops core) good

  pub shutdown_or-Good :
      (base : ℕ) (core : WorkerCore R T) (progress : StepProgress)
      (next : WorkerCore R T → Flow f p m env ops)
      → ((core : WorkerCore R T) → Good ops base core progress → GoodFlow base (next core))
      → Good ops base core progress
      → GoodFlow base (shutdown_or f p m env ops core progress next)
  shutdown_or-Good base core progress next goes good =
      shutdown_taken-Good base progress next
        (with_transport f p m env ops core (env.take_shutdown core.io.transport)) goes good

  pub fail_unless_shutdown-Good :
      (base : ℕ) (core : WorkerCore R T) (error : WorkerCoreError) (progress : StepProgress)
      → Good ops base core progress
      → GoodFlow base (fail_unless_shutdown f p m env ops core error progress)
  fail_unless_shutdown-Good base core error progress good =
      shutdown_or-Good base core progress (λ core. err (fail f p m env ops core error progress))
        (λ core good. fail-Ends f p m env ops lawful base core error progress good) good

  pub fail_or_go-Good :
      (base : ℕ) (terminal : Option WorkerCoreError) (progress : StepProgress)
      (core : WorkerCore R T)
      → Good ops base core progress
      → GoodFlow base (fail_or_go f p m env ops terminal progress core)
  fail_or_go-Good base none progress core good = good
  fail_or_go-Good base (some error) progress core good =
      fail-Ends f p m env ops lawful base core error progress good

  pub command_recorded-Good :
      (base : ℕ) (core : WorkerCore R T) (recorded : StepProgress × Option WorkerCoreError)
      → Good ops base core recorded.0
      → GoodFlow base (command_recorded f p m env ops core recorded)
  command_recorded-Good base core (progress, terminal) good =
      shutdown_or-Good base core progress (fail_or_go f p m env ops terminal progress)
        (λ core good. fail_or_go-Good base terminal progress core good) good
