-- ===== src/Protocol/Facade.antt =====
-- crates/swbt-core/src/protocol/facade.rs: the composition of the protocol's parts.
pub mod Outcome
use swbt_rs.Base.{ℕ, Option, none, some, List, Result, ok, err, ◌>>=◌}
use swbt_rs.Model.Spec.{ControllerKind, protocol}
use swbt_rs.Profile.Colors.{ControllerColors}
use swbt_rs.Input.State.{InputState}
use swbt_rs.Protocol.Error.{ProtocolError, ProtocolResult, unsupported_subcommand}
use swbt_rs.Protocol.Floats.{F64Ops}
use swbt_rs.Protocol.Imu.{ImuEncodingState}
use swbt_rs.Protocol.Imu.Quaternion.{encode_imu_block}
use swbt_rs.Protocol.InputReport.{PreparedInputReport, encode_0x30}
use swbt_rs.Protocol.OutputReport.{SubcommandRequest}
use swbt_rs.Protocol.Session.{ProtocolSession}
use swbt_rs.Protocol.Spi
use swbt_rs.Protocol.Spi.{VirtualSpiFlash}
use swbt_rs.Protocol.Subcommand.{
  PreparedSubcommandReply, PreparedSessionReply, try_prepare_stateless_reply, try_prepare_spi_reply,
  try_prepare_stateful_reply,
}

pub record InputPreparation : Type 0 where
  pub report : PreparedInputReport
  pub next_imu_encoding_state : ImuEncodingState

pub data PreparedOutputAction : Type 0 where
  reply : PreparedSubcommandReply → PreparedOutputAction
  session_reply : PreparedSessionReply → PreparedOutputAction

-- The address has six bytes.
pub record SwitchHidProtocol : Type 0 where
  pub spi : VirtualSpiFlash
  pub device_info_address : List ℕ

unfoldable pub new : ControllerKind → Option ControllerColors → List ℕ → SwitchHidProtocol
unfolding Spi.new
new m colors address = record { spi = Spi.new m colors; device_info_address = address }

unfoldable pub prepare_input_report :
    F64Ops → ControllerKind → InputState → ℕ → ProtocolSession → ℕ → InputPreparation
prepare_input_report f m state timer session now_ns =
    let imu =
      encode_imu_block f session.imu_encoding_state session.imu_mode state.imu_frames
        (protocol m).gyroscope_calibration now_ns in
    record {
      report = encode_0x30 m state timer imu.block;
      next_imu_encoding_state = imu.next_state;
    }

-- `?` on a prepared option: an answer ends the call, `None` goes on to the next handler.
abbrev pub or_next :
    {A : Type 0}
    → ProtocolResult (Option A)
    → (A → PreparedOutputAction)
    → ProtocolResult PreparedOutputAction
    → ProtocolResult PreparedOutputAction
or_next (ok (some answer)) wrap next = ok (wrap answer)
or_next (ok none) wrap next = next
or_next (err e) wrap next = err e

unfoldable pub prepare_subcommand :
    SwitchHidProtocol
    → ControllerKind
    → SubcommandRequest
    → InputState
    → ℕ
    → ProtocolSession
    → ProtocolResult PreparedOutputAction
prepare_subcommand p m request state timer session =
    or_next (try_prepare_stateless_reply m request state timer p.device_info_address) reply (
      or_next (try_prepare_spi_reply m request state timer p.spi) reply (
        or_next (try_prepare_stateful_reply m request state timer session) session_reply
          (err (unsupported_subcommand request.id))))
