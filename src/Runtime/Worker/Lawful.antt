-- ===== src/Runtime/Worker/Lawful.antt =====
-- The laws of a reporting mode: what its operations do to the one pending tap.
pub mod Panics
pub mod Periodic
pub mod Direct
use swbt_rs.Base.{ℕ, ◌≡◌, refl, Bool, true, false, Option, none, some, Result, ok, err}
use swbt_rs.Runtime.Handshake.{Handshake}
use swbt_rs.Runtime.Output.{OutputResult}
use swbt_rs.Runtime.Readiness.{ReadinessGate, Evaluated, ReadinessProgress, expect_failed}
use swbt_rs.Runtime.Sender.{ReportSender}
use swbt_rs.Runtime.Sessions.{ConnectionSessions, Parts}
use swbt_rs.Runtime.Transport.{TransportEvent, link_disconnected, Io}
use swbt_rs.Runtime.Worker.Reporting.{
  Reporting, ReportingEvent, passthrough, output_done, session_disconnected, ReportingDue,
}
use swbt_rs.Runtime.Worker.Types.{WorkerCommandError, WorkerCommandProgress, complete, pending}

-- Whether a tap is pending after a command, with what was answered, where none was before.
abbrev pub CommandKeeps : Bool → Bool → Bool → WorkerCommandProgress → Type 0
CommandKeeps true is_ready after result = Unit {0}
CommandKeeps false is_ready after pending = (after ≡ true) × (is_ready ≡ true)
CommandKeeps false is_ready after (complete _) = after ≡ false

-- A command is run only when no tap is pending.
pub unless_pending :
    (before is_ready after : Bool) (result : WorkerCommandProgress)
    → (before ≡ false → CommandKeeps false is_ready after result)
    → CommandKeeps before is_ready after result
unless_pending true is_ready after result keeps = tt
unless_pending false is_ready after result keeps = keeps refl

-- The answer to a tap that ends early.
abbrev pub Interrupts : Bool → Bool → Option WorkerCommandError → Type 0
Interrupts before after none = (before ≡ false) × (after ≡ false)
Interrupts before after (some _) = (before ≡ true) × (after ≡ false)

abbrev pub EventKeeps : Bool → Bool → ReportingEvent → Type 0
EventKeeps before after (passthrough (link_disconnected _)) = (before ≡ false) × (after ≡ false)
EventKeeps before after (passthrough _) = after ≡ before
EventKeeps before after (output_done _) = after ≡ before
EventKeeps before after (session_disconnected _ completion) = Interrupts before after completion

abbrev pub DueKeeps : Bool → Bool → Option WorkerCommandProgress → Type 0
DueKeeps before after none = after ≡ before
DueKeeps before after (some (complete _)) = (before ≡ true) × (after ≡ false)
DueKeeps before after (some pending) = ⊥

abbrev pub NoPanic : Evaluated → Type 0
NoPanic (_, _, ok expect_failed) = ⊥
NoPanic _ = Unit {0}

pub record IsLawful {R C T : Type 0} (ops : Reporting R C T) : Type 0 where
  pub begin_session :
      (r : R) (parts : Parts) → ops.has_pending (ops.begin_session r parts).0 ≡ ops.has_pending r
  pub handle_command :
      (r : R) (c : C) (is_ready : Bool) (now : ℕ) (io : Io T)
      → CommandKeeps
          (ops.has_pending r)
          is_ready
          (ops.has_pending (ops.handle_command r c is_ready now io).0)
          (ops.handle_command r c is_ready now io).2
  pub handle_event :
      (r : R) (event : TransportEvent) (io : Io T)
      → EventKeeps
          (ops.has_pending r)
          (ops.has_pending (ops.handle_event r event io).0)
          (ops.handle_event r event io).2
  pub record_output :
      (r : R) (now : ℕ) (completion : OutputResult)
      → ops.has_pending (ops.record_output r now completion).0 ≡ ops.has_pending r
  pub evaluate_readiness :
      (r : R) (now : ℕ) (sessions : ConnectionSessions) (h : Option Handshake) (s : ReportSender)
      (gate : ReadinessGate)
      → (ops.has_pending (ops.evaluate_readiness r now sessions h s gate).0 ≡ ops.has_pending r)
        × NoPanic (ops.evaluate_readiness r now sessions h s gate).1
  pub run_due :
      (r : R) (now : ℕ) (io : Io T)
      → DueKeeps
          (ops.has_pending r)
          (ops.has_pending (ops.run_due r now io).0)
          (ops.run_due r now io).2.completion
  pub cancel_for_shutdown :
      (r : R) (io : Io T)
      → Interrupts
          (ops.has_pending r)
          (ops.has_pending (ops.cancel_for_shutdown r io).0)
          (ops.cancel_for_shutdown r io).2
  pub stop_session : (r : R) → ops.has_pending (ops.stop_session r) ≡ false
