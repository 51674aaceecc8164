-- ===== src/Runtime/Worker/Tally/Due.antt =====
-- Due work answers a tap once, and its errors leave the commands alone.
use swbt_rs.Base.{Only, ℕ, ◌+◌, Bool, ◌&&◌, ◌||◌, Option, none, some, List, [], ◌∷◌, arith, by_test}
use swbt_rs.Model.Spec.{ControllerKind}
use swbt_rs.Protocol.Facade.{SwitchHidProtocol}
use swbt_rs.Protocol.Floats.{F64Ops}
use swbt_rs.Runtime.Transport.{Io}
use swbt_rs.Runtime.Worker.Core.{WorkerCore}
use swbt_rs.Runtime.Worker.Drive.{Surroundings, read_clock}
use swbt_rs.Runtime.Worker.Lawful.{IsLawful, DueKeeps}
use swbt_rs.Runtime.Worker.PeriodicReporting.{is_pending}
use swbt_rs.Runtime.Worker.Reporting.{Reporting, ReportingDue}
use swbt_rs.Runtime.Worker.Step.{
  is_state_ready, is_state_connecting, first_error, errors_recorded, completion_recorded,
  due_recorded, due_run, due_at, due_phase,
}
use swbt_rs.Runtime.Worker.Tally.{bit, Tally, Good}
use swbt_rs.Runtime.Worker.Types.{
  WorkerCoreError, WorkerCommandProgress, complete, pending, WorkerOperationError, StepProgress,
  push_error, nonterminal_operation_error,
}
use swbt_rs.Runtime.Worker.Tally.Flow.{GoodFlow, command_recorded-Good}
use swbt_rs.Runtime.Worker.Tally.Commands.{recorded-Tally}

errors_recorded-Tally :
    (base waiting : ℕ) (progress : StepProgress) (terminal : Option WorkerCoreError)
    (errors : List WorkerOperationError)
    → Tally base waiting progress
    → Tally base waiting (errors_recorded progress terminal errors).0
errors_recorded-Tally base waiting progress terminal [] tally = tally
errors_recorded-Tally base waiting progress terminal (error ∷ errors) tally =
    errors_recorded-Tally base waiting (push_error progress (nonterminal_operation_error error).1)
      (first_error terminal (nonterminal_operation_error error).0) errors tally

due_recorded-Tally :
    (base waiting : ℕ) (recorded : StepProgress × Option WorkerCoreError)
    (errors : List WorkerOperationError)
    → Tally base waiting recorded.0
    → Tally base waiting (due_recorded recorded errors).0
due_recorded-Tally base waiting (progress, terminal) errors tally =
    errors_recorded-Tally base waiting progress terminal errors tally

-- The answer to a tap, where due work has ended one.
completion_recorded-Tally :
    (base waiting : ℕ) (before after : Bool) (progress : StepProgress)
    (completion : Option WorkerCommandProgress)
    → DueKeeps before after completion
    → Tally base (waiting + bit before) progress
    → Tally base (waiting + bit after) (completion_recorded progress completion).0
completion_recorded-Tally base waiting before after progress none same tally = rw same tally
completion_recorded-Tally base waiting before after progress (some (complete result)) (tap, ended)
      (balance, bound, sane) =
    let balance' = rw tap at balance in
    let (balance'', bound', sane') =
      recorded-Tally base waiting progress result (omega arith, bound, sane) in
    rw ended (omega arith, bound', sane')
completion_recorded-Tally base waiting before after progress (some pending) impossible tally =
    absurd impossible

still_ready :
    (before after is_ready : Bool) (completion : Option WorkerCommandProgress)
    → DueKeeps before after completion
    → Only before is_ready
    → Only after is_ready
still_ready before after is_ready none same taps = rw same taps
still_ready before after is_ready (some (complete _)) (_, ended) taps = rw ended tt
still_ready before after is_ready (some pending) impossible taps = absurd impossible

module _ {R C T : Type 0} (f : F64Ops) (p : SwitchHidProtocol) (m : ControllerKind)
    (env : Surroundings T C) (ops : Reporting R C T) (lawful : IsLawful ops) where
  due_run-Good :
      (base : ℕ) (progress : StepProgress) (core : WorkerCore R T) (reporting : R) (io : Io T)
      (due : ReportingDue)
      → DueKeeps (ops.has_pending core.reporting) (ops.has_pending reporting) due.completion
      → Good ops base core progress
      → GoodFlow f p m env ops lawful base
          (due_run f p m env ops progress core (reporting, io, due))
  due_run-Good base progress core reporting io due keeps (tally, (taps, connects)) =
      let progress' = record progress {
        due_actions = progress.due_actions + due.actions;
        immediate = progress.immediate || due.immediate;
      } in
      command_recorded-Good f p m env ops lawful base
        (record core { reporting = reporting; io = io })
        (due_recorded (completion_recorded progress' due.completion) due.errors)
        (
          due_recorded-Tally base
              (bit (is_pending core.connection_command_pending) + bit (ops.has_pending reporting))
              (completion_recorded progress' due.completion) due.errors
              (completion_recorded-Tally base (bit (is_pending core.connection_command_pending))
                (ops.has_pending core.reporting) (ops.has_pending reporting) progress'
                due.completion keeps tally),
          (
            still_ready (ops.has_pending core.reporting) (ops.has_pending reporting)
                (is_state_ready core.lifecycle) due.completion keeps taps,
            connects,
          ),
        )

  due_at-Good :
      (base : ℕ) (progress : StepProgress) (read : WorkerCore R T × ℕ)
      → Good ops base read.0 progress
      → GoodFlow f p m env ops lawful base (due_at f p m env ops progress read)
  due_at-Good base progress (core, now) good =
      due_run-Good base progress core (ops.run_due core.reporting now core.io).0
        (ops.run_due core.reporting now core.io).1 (ops.run_due core.reporting now core.io).2
        (lawful.run_due core.reporting now core.io) good

  pub due_phase-Good :
      (base : ℕ) (core : WorkerCore R T) (progress : StepProgress)
      → Good ops base core progress
      → GoodFlow f p m env ops lawful base (due_phase f p m env ops (core, progress))
  unfolding due_phase
  due_phase-Good base core progress good =
      by_test (GoodFlow f p m env ops lawful base)
        (is_state_ready core.lifecycle
          || (is_state_connecting core.lifecycle && ops.automatic_due_before_ready core.reporting))
        (λ _. due_at-Good base progress (read_clock f p m env ops core) good) λ _. good
