-- ===== src/Runtime/Worker/Reporting.antt =====
-- src/runtime/worker.rs: the interface between the worker and a reporting mode.
use swbt_rs.Base.{ℕ, Bool, false, Option, none, List, [], Result}
use swbt_rs.Runtime.Handshake.{Handshake}
use swbt_rs.Runtime.Output.{OutputResult}
use swbt_rs.Runtime.Readiness.{ReadinessGate, Evaluated}
use swbt_rs.Runtime.Sender.{ReportSender}
use swbt_rs.Runtime.Sessions.{ConnectionSessions, Parts}
use swbt_rs.Runtime.Transport.{TransportEvent, Io}
use swbt_rs.Runtime.Worker.Types.{WorkerCommandError, WorkerCommandProgress, WorkerOperationError}

pub data ReportingEvent : Type 0 where
  passthrough : TransportEvent → ReportingEvent
  output_done : OutputResult → ReportingEvent
  -- reason, completion
  session_disconnected : Option ℕ → Option WorkerCommandError → ReportingEvent

pub record ReportingDue : Type 0 where
  pub actions : ℕ
  pub immediate : Bool
  pub completion : Option WorkerCommandProgress
  pub errors : List WorkerOperationError

unfoldable pub nothing_due : ReportingDue
nothing_due = record { actions = 0; immediate = false; completion = none; errors = [] }

-- `WorkerReporting`: the state `R` of a mode, its commands `C`, and the transport's state `T`.
pub record Reporting (R C T : Type 0) : Type 0 where
  pub begin_session : R → Parts → R × Parts × ℕ
  pub begin_handshake : ℕ → Handshake
  -- ready and now come after the command
  pub handle_command : R → C → Bool → ℕ → Io T → R × Io T × WorkerCommandProgress
  pub handle_event : R → TransportEvent → Io T → R × Io T × ReportingEvent
  pub record_output : R → ℕ → OutputResult → R × Result WorkerOperationError (Unit {0})
  pub evaluate_readiness :
      R → ℕ → ConnectionSessions → Option Handshake → ReportSender → ReadinessGate → R × Evaluated
  pub next_deadline : R → Option ℕ
  pub automatic_due_before_ready : R → Bool
  pub run_due : R → ℕ → Io T → R × Io T × ReportingDue
  pub cancel_for_shutdown : R → Io T → R × Io T × Option WorkerCommandError
  pub stop_session : R → R
  pub has_pending : R → Bool
