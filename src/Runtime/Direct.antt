-- ===== src/Runtime/Direct.antt =====
-- src/runtime/direct.rs: input that is committed only when the transport has accepted it, and taps
-- between two such inputs.
pub mod Commits
use swbt_rs.Base.{ℕ, Bool, Option, none, some, if◌then◌else◌, Result, ok, err}
use swbt_rs.Model.Spec.{ControllerKind}
use swbt_rs.Input.State.{InputState}
use swbt_rs.Protocol.Floats.{F64Ops}
use swbt_rs.Protocol.Facade.{SwitchHidProtocol}
use swbt_rs.Runtime.Clock.{protocol_timestamp, deadline_after}
use swbt_rs.Runtime.Output.{OutputResult, handle_output}
use swbt_rs.Runtime.Sessions.{commit_input}
use swbt_rs.Runtime.Transport.{
  TransportError, TransportResult, TransportPort, Io, send_state, TransportEvent, link_connected,
  hid_channel_opened, hid_output, link_disconnected,
}

pub data DirectTapInterruption : Type 0 where
  interrupted_disconnected : Option ℕ → DirectTapInterruption
  interrupted_shutdown : DirectTapInterruption

pub data DirectTapError : Type 0 where
  not_ready : DirectTapError
  transport_failed : TransportError → DirectTapError
  interrupted : DirectTapInterruption → DirectTapError

-- The stimulus `Time` is for tests only.
pub data DirectTapStimulus : Type 0 where
  transport_event : TransportEvent → DirectTapStimulus
  shutdown : DirectTapStimulus

pub record PendingDirectTap : Type 0 where
  pub released : InputState
  pub release_at : ℕ

pub data DirectTapStep : Type 0 where
  -- tap, output
  pending : PendingDirectTap → Option OutputResult → DirectTapStep
  complete : Result DirectTapError (Unit {0}) → DirectTapStep

module _ {T : Type 0} (f : F64Ops) (p : SwitchHidProtocol) (m : ControllerKind)
    (port : TransportPort T) where
  abbrev committed :
      InputState → Io T × TransportResult (Unit {0}) → Io T × TransportResult (Unit {0})
  committed candidate (io, ok _) = (record io { input = commit_input io.input candidate }, ok tt)
  committed candidate (io, err e) = (io, err e)

  unfoldable pub send_candidate : Io T → InputState → ℕ → Io T × TransportResult (Unit {0})
  send_candidate io candidate now_ns = committed candidate (send_state f m port io candidate now_ns)

  abbrev pub tap_result : TransportResult (Unit {0}) → Result DirectTapError (Unit {0})
  tap_result (ok _) = ok tt
  tap_result (err e) = err (transport_failed e)

  unfoldable pub finish : PendingDirectTap → Io T → ℕ → Io T × Result DirectTapError (Unit {0})
  finish tap io now =
      let (io', result) = send_candidate io tap.released (protocol_timestamp now) in
      (io', tap_result result)

  abbrev pub with_output : PendingDirectTap → Io T × OutputResult → Io T × DirectTapStep
  with_output tap (io, output) = (io, pending tap (some output))

  unfoldable pub step : PendingDirectTap → DirectTapStimulus → Io T → Io T × DirectTapStep
  step tap (transport_event (hid_output channel payload)) io =
      with_output tap (handle_output p m port io payload io.input.committed)
  step tap (transport_event (link_disconnected reason)) io =
      (io, complete (err (interrupted (interrupted_disconnected reason))))
  step tap shutdown io = (io, complete (err (interrupted interrupted_shutdown)))
  step tap (transport_event link_connected) io = (io, pending tap none)
  step tap (transport_event (hid_channel_opened _)) io = (io, pending tap none)

  abbrev pub tap_begun :
      InputState
      → ℕ
      → Io T × TransportResult (Unit {0})
      → Io T × Result DirectTapError PendingDirectTap
  tap_begun released release_at (io, ok _) =
      (io, ok (record { released = released; release_at = release_at }))
  tap_begun released release_at (io, err e) = (io, err (transport_failed e))

  unfoldable pub begin_tap :
      Bool → InputState × InputState × ℕ → Io T → ℕ → Io T × Result DirectTapError PendingDirectTap
  begin_tap ready (pressed, released, duration) io started_at =
      if ready
      then tap_begun released (deadline_after started_at duration)
          (send_candidate io pressed (protocol_timestamp started_at))
      else (io, err not_ready)
