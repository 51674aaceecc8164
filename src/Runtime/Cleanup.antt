-- ===== src/Runtime/Cleanup.antt =====
-- src/runtime/cleanup.rs: the closing of a runtime. The view for diagnostics (`status`) is left out.
pub mod Once
use swbt_rs.Base.{ℕ, Bool, true, false, ◌&&◌, Option, none, some, if◌then◌else◌, Result, ok, err}
use swbt_rs.Model.Spec.{ControllerKind}
use swbt_rs.Input.State
use swbt_rs.Protocol.Floats.{F64Ops}
use swbt_rs.Runtime.Lifecycle.{
  RuntimeState, LifecycleAction, begin_cleanup, closed, no_action, request_close,
}
use swbt_rs.Runtime.Transport.{TransportError, TransportResult, TransportPort, Io, send_state}

pub data CloseMode : Type 0 where
  with_neutral without_neutral : CloseMode

pub data CleanupPhase : Type 0 where
  neutral_phase drain_phase disconnect_phase close_phase : CleanupPhase

pub record CleanupFailure : Type 0 where
  pub phase : CleanupPhase
  pub error : TransportError

pub record CleanupSequence : Type 0 where
  pub mode : CloseMode
  pub drain_timeout : ℕ
  pub drain_interrupt : Bool

unfoldable pub new : CloseMode → ℕ → CleanupSequence
new mode drain_timeout = record {
  mode = mode;
  drain_timeout = drain_timeout;
  drain_interrupt = true;
}

unfoldable pub for_drop : CleanupSequence
for_drop = record { mode = without_neutral; drain_timeout = 0; drain_interrupt = false }

pub record CloseCompletion : Type 0 where
  pub performed : Bool
  pub first_failure : Option CleanupFailure

unfoldable pub not_performed : CloseCompletion
not_performed = record { performed = false; first_failure = none }

unfoldable pub record_first_failure :
    Option CleanupFailure → CleanupPhase → TransportResult (Unit {0}) → Option CleanupFailure
record_first_failure (some first) phase result = some first
record_first_failure none phase (ok _) = none
record_first_failure none phase (err error) = some (record { phase = phase; error = error })

pub data ExplicitCloseError (J : Type 0) : Type 0 where
  cleanup_error : CleanupFailure → ExplicitCloseError J
  join_error : J → ExplicitCloseError J
  cleanup_and_join : CleanupFailure → J → ExplicitCloseError J

abbrev close_result :
    {J : Type 0}
    → Option CleanupFailure
    → Result J (Unit {0})
    → Result (ExplicitCloseError J) (Unit {0})
close_result none (ok _) = ok tt
close_result none (err join) = err (join_error join)
close_result (some cleanup) (ok _) = err (cleanup_error cleanup)
close_result (some cleanup) (err join) = err (cleanup_and_join cleanup join)

-- The closure `join` is its result.
unfoldable pub finish_with_join :
    {J : Type 0} → CloseCompletion → Result J (Unit {0}) → Result (ExplicitCloseError J) (Unit {0})
finish_with_join completion join =
    if completion.performed then close_result completion.first_failure join else ok tt

abbrev is_with_neutral : CloseMode → Bool
is_with_neutral with_neutral = true
is_with_neutral without_neutral = false

module _ {T : Type 0} (f : F64Ops) (m : ControllerKind) (port : TransportPort T) where
  -- The state of the runtime's parts, and the first failure so far.
  abbrev Sofar : Type 0
  Sofar = Io T × Option CleanupFailure

  abbrev recorded : Option CleanupFailure → CleanupPhase → Io T × TransportResult (Unit {0}) → Sofar
  recorded first phase (io, result) = (io, record_first_failure first phase result)

  abbrev on_transport :
      Io T → (T → T × TransportResult (Unit {0})) → Io T × TransportResult (Unit {0})
  on_transport io act =
      let (transport, result) = act io.transport in (record io { transport = transport }, result)

  abbrev send_neutral : Bool → ℕ → Sofar → Sofar
  send_neutral wanted now_ns (io, first) =
      if wanted
      then recorded first neutral_phase (send_state f m port io State.neutral now_ns)
      else (io, first)

  abbrev drain : CleanupSequence → Sofar → Sofar
  drain sequence (io, first) =
      if sequence.drain_interrupt
      then recorded first drain_phase
          (on_transport io (λ t. port.drain_interrupt t sequence.drain_timeout))
      else (io, first)

  abbrev disconnect : Sofar → Sofar
  disconnect (io, first) = recorded first disconnect_phase (on_transport io port.disconnect)

  abbrev close : Sofar → Sofar
  close (io, first) = recorded first close_phase (on_transport io port.close)

  abbrev run_phases : CleanupSequence → Bool → ℕ → Io T → Sofar
  run_phases sequence connected now_ns io = close (
      disconnect (
        drain sequence
          (send_neutral (is_with_neutral sequence.mode && connected) now_ns (io, none))))

  abbrev performed : RuntimeState → Sofar → RuntimeState × Io T × CloseCompletion
  performed lifecycle (io, first) =
      (lifecycle, io, record { performed = true; first_failure = first })

  abbrev run_action :
      CleanupSequence
      → Bool
      → ℕ
      → Io T
      → RuntimeState × LifecycleAction
      → RuntimeState × Io T × CloseCompletion
  run_action sequence connected now_ns io (lifecycle, begin_cleanup) =
      performed lifecycle (run_phases sequence connected now_ns io)
  run_action sequence connected now_ns io (lifecycle, closed) = (lifecycle, io, not_performed)
  run_action sequence connected now_ns io (lifecycle, no_action) = (lifecycle, io, not_performed)

  unfoldable pub run :
      CleanupSequence → Bool → ℕ → RuntimeState → Io T → RuntimeState × Io T × CloseCompletion
  run sequence connected now_ns lifecycle io =
      run_action sequence connected now_ns io (request_close lifecycle)
