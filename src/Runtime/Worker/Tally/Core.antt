-- ===== src/Runtime/Worker/Tally/Core.antt =====
-- The worker's operations on a connection answer its pending command.
use swbt_rs.Base.{
  ℕ, ◌+◌, ◌≡◌, refl, ap, Bool, true, false, Option, none, some, arith, Result, ok, err,
}
use swbt_rs.Runtime.Output.{OutputResult}
use swbt_rs.Runtime.Readiness.{ReadinessError, disconnected}
use swbt_rs.Runtime.Worker.Core.{
  WorkerCore, ConnectionWork, Act, command_answered, failure_result, complete_connection_command,
  complete_connection_failure, end_parts, abort_connection, end_connection, end_with, answer_false,
  completed, operation_recorded, record_operation_error, record_output, mode_recorded,
  completion_recorded,
}
use swbt_rs.Runtime.Worker.Lawful.{IsLawful}
use swbt_rs.Runtime.Worker.PeriodicReporting.{is_pending}
use swbt_rs.Runtime.Worker.Reporting.{Reporting}
use swbt_rs.Runtime.Worker.Tally.{bit, Tally, Tally-record, Tally-answered, owed, Good}
use swbt_rs.Runtime.Worker.Types.{
  WorkerCommandError, WorkerOperationError, WorkerCoreError, CommandResult, StepProgress,
  nonterminal_operation_error, output_operation, readiness_failed, readiness_operation, push_error,
}

pub false_not_true {ℓ} : {A : Type ℓ} {b : Bool} → b ≡ false → b ≡ true → A
false_not_true {A} {b} e e' = absurd (ground (arith, e, e'))

-- A change of the reporting state that keeps what is pending.
pub reporting-Good :
    {R C T : Type 0} (ops : Reporting R C T) (base : ℕ) (core : WorkerCore R T)
    (progress : StepProgress) (reporting : R)
    → ops.has_pending reporting ≡ ops.has_pending core.reporting
    → Good ops base core progress
    → Good ops base (record core { reporting = reporting }) progress
reporting-Good ops base core progress reporting same good = rw same good

module _ {R C T : Type 0} (ops : Reporting R C T) (lawful : IsLawful ops) where
  abbrev pub GoodAct : {A : Type 0} → ℕ → Act R T A → Type 0
  GoodAct base (core, progress, _) = Good ops base core progress

  pub complete_connection_command-Tally :
      (base : ℕ) (core : WorkerCore R T) (progress : StepProgress) (result : CommandResult)
      → Tally base (owed ops core) progress
      → Tally base
          (owed ops (complete_connection_command core progress result).0)
          (complete_connection_command core progress result).1
  unfolding complete_connection_command
  complete_connection_command-Tally base core progress result tally =
      Tally-answered base (bit (ops.has_pending core.reporting)) progress
        core.connection_command_pending result tally

  -- The end of a session leaves no tap and no connection.
  end_parts-Good :
      (base : ℕ) (core : WorkerCore R T) (progress : StepProgress)
      → Tally base (owed ops core) progress
      → ops.has_pending core.reporting ≡ false
      → is_pending core.connection ≡ false
      → Good ops base (end_parts ops core) progress
  unfolding end_parts
  end_parts-Good base core progress tally no_tap no_connection =
      let stopped = lawful.stop_session core.reporting in
      let (balance, bound, sane) = tally in
      ((rw stopped (rw no_tap at balance), bound, sane), (rw stopped tt, rw no_connection tt))

  pub abort_connection-Good :
      (base : ℕ) (core : WorkerCore R T) (progress : StepProgress) (e : ReadinessError)
      → Tally base (owed ops core) progress
      → ops.has_pending core.reporting ≡ false
      → Good ops base
          (abort_connection ops core progress e).0
          (abort_connection ops core progress e).1
  unfolding abort_connection complete_connection_failure
  abort_connection-Good base core progress e tally no_tap =
      let result = failure_result core.connection_command_pending (readiness_failed e) in
      end_parts-Good base (record core { connection = none; connection_command_pending = none })
        (push_error (command_answered progress core.connection_command_pending result)
          readiness_operation)
        (complete_connection_command-Tally base core progress result tally) no_tap refl

  completed-Tally :
      (base waiting : ℕ) (completion : Option WorkerCommandError) (progress : StepProgress)
      → Tally base (bit (is_pending completion) + waiting) progress
      → Tally base waiting (completed ops progress completion)
  completed-Tally base waiting none progress (balance, bound, sane) = (omega arith, bound, sane)
  completed-Tally base waiting (some error) progress (balance, bound, sane) =
      Tally-record base waiting progress (err error) (omega arith, bound, sane)

  end_with-Good :
      (base : ℕ) (core : WorkerCore R T) (reason : Option ℕ) (progress : StepProgress)
      (connection : Option ConnectionWork)
      → core.connection ≡ connection
      → Tally base (owed ops core) progress
      → ops.has_pending core.reporting ≡ false
      → Good ops base
          (end_with ops core reason progress connection).0
          (end_with ops core reason progress connection).1
  end_with-Good base core reason progress none e tally no_tap =
      end_parts-Good base core progress tally no_tap (ap is_pending e)
  end_with-Good base core reason progress (some _) e tally no_tap =
      abort_connection-Good base core progress (disconnected reason) tally no_tap

  pub end_connection-Good :
      (base : ℕ) (core : WorkerCore R T) (reason : Option ℕ)
      (completion : Option WorkerCommandError) (progress : StepProgress)
      → Tally base (bit (is_pending completion) + owed ops core) progress
      → ops.has_pending core.reporting ≡ false
      → Good ops base
          (end_connection ops core reason completion progress).0
          (end_connection ops core reason completion progress).1
  unfolding end_connection
  end_connection-Good base core reason completion progress tally no_tap =
      end_with-Good base core reason (completed ops progress completion) core.connection refl
        (completed-Tally base (owed ops core) completion progress tally) no_tap

  -- Errors of operations leave the commands alone.
  operation_recorded-Good :
      (base : ℕ) (core : WorkerCore R T) (progress : StepProgress)
      (classified : Option WorkerCoreError × WorkerOperationError)
      → Good ops base core progress
      → GoodAct base (operation_recorded core progress classified)
  operation_recorded-Good base core progress (none, error) good = good
  operation_recorded-Good base core progress (some terminal, error) good = good

  record_operation_error-Good :
      (base : ℕ) (core : WorkerCore R T) (progress : StepProgress) (error : WorkerOperationError)
      → Good ops base core progress
      → GoodAct base (record_operation_error core progress error)
  unfolding record_operation_error
  record_operation_error-Good base core progress error good =
      operation_recorded-Good base core progress (nonterminal_operation_error error) good

  answer_false-Good :
      (base : ℕ) (act : Act R T (Unit {0})) → GoodAct base act → GoodAct base (answer_false act)
  answer_false-Good base (core, progress, ok _) good = good
  answer_false-Good base (core, progress, err e) good = good

  completion_recorded-Good :
      (base : ℕ) (completion : OutputResult) (act : Act R T (Unit {0}))
      → GoodAct base act
      → GoodAct base (completion_recorded completion act)
  completion_recorded-Good base completion (core, progress, err e) good = good
  completion_recorded-Good base (ok _) (core, progress, ok _) good = good
  completion_recorded-Good base (err e) (core, progress, ok _) good =
      answer_false-Good base (record_operation_error core progress (output_operation e))
        (record_operation_error-Good base core progress (output_operation e) good)

  mode_recorded-Good :
      (base : ℕ) (core : WorkerCore R T) (progress : StepProgress)
      (recorded : R × Result WorkerOperationError (Unit {0}))
      → ops.has_pending recorded.0 ≡ ops.has_pending core.reporting
      → Good ops base core progress
      → GoodAct base (mode_recorded ops core progress recorded)
  mode_recorded-Good base core progress (reporting, ok _) same good =
      reporting-Good ops base core progress reporting same good
  mode_recorded-Good base core progress (reporting, err e) same good =
      record_operation_error-Good base (record core { reporting = reporting }) progress e
        (reporting-Good ops base core progress reporting same good)

  pub record_output-Good :
      (base : ℕ) (core : WorkerCore R T) (now : ℕ) (completion : OutputResult)
      (progress : StepProgress)
      → Good ops base core progress
      → GoodAct base (record_output ops core now completion progress)
  unfolding record_output
  record_output-Good base core now completion progress good =
      completion_recorded-Good base completion
        (mode_recorded ops core progress (ops.record_output core.reporting now completion))
        (mode_recorded-Good base core progress (ops.record_output core.reporting now completion)
          (lawful.record_output core.reporting now completion) good)
