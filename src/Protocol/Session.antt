-- ===== src/Protocol/Session.antt =====
-- crates/swbt-core/src/protocol/session.rs: the protocol state of one connection.
use swbt_rs.Base.{ℕ, Bool, true, false, not, ◌&&◌, Option, none, some, ◌==◌, if◌then◌else◌}
use swbt_rs.Protocol.Imu.{ImuMode, disabled, ImuEncodingState, default_state}

abbrev pub supported_input_report_mode : ℕ
supported_input_report_mode = 0x30

pub data ReportModeSelection : Type 0 where
  standard_full : ReportModeSelection
  unsupported : ℕ → ReportModeSelection

unfoldable pub from_requested : ℕ → ReportModeSelection
from_requested requested =
    if requested == supported_input_report_mode then standard_full else unsupported requested

pub record ProtocolSession : Type 0 where
  pub mode : Option ReportModeSelection
  pub lights : Option ℕ
  pub imu_mode : ImuMode
  pub imu_encoding_state : ImuEncodingState
  pub vibration_enabled : Bool

unfoldable pub default : ProtocolSession
unfolding default_state
default = record {
  mode = none;
  lights = none;
  imu_mode = disabled;
  imu_encoding_state = default_state;
  vibration_enabled = false;
}

abbrev pub mode_byte : Option ReportModeSelection → Option ℕ
mode_byte (some standard_full) = some supported_input_report_mode
mode_byte (some (unsupported requested)) = some requested
mode_byte none = none

unfoldable pub report_mode : ProtocolSession → Option ℕ
report_mode s = mode_byte s.mode

abbrev pub is_standard : Option ReportModeSelection → Bool
is_standard (some standard_full) = true
is_standard (some (unsupported requested)) = false
is_standard none = false

unfoldable pub report_mode_supported : ProtocolSession → Bool
report_mode_supported s = is_standard s.mode

abbrev unsupported_byte : Option ReportModeSelection → Option ℕ
unsupported_byte (some (unsupported requested)) = some requested
unsupported_byte (some standard_full) = none
unsupported_byte none = none

unfoldable pub unsupported_report_mode : ProtocolSession → Option ℕ
unsupported_report_mode s = unsupported_byte s.mode

abbrev pub lights_on : Option ℕ → Bool
lights_on none = false
lights_on (some player_lights) = not (player_lights == 0)

abbrev is_enabled : ImuMode → Bool
is_enabled disabled = false
is_enabled _ = true

unfoldable pub imu_enabled : ProtocolSession → Bool
imu_enabled s = is_enabled s.imu_mode

unfoldable pub protocol_ready : ProtocolSession → Bool
unfolding report_mode_supported
protocol_ready s = report_mode_supported s && lights_on s.lights

unfoldable pub with_report_mode : ProtocolSession → ℕ → ProtocolSession
unfolding from_requested
with_report_mode s requested = record s { mode = some (from_requested requested) }

unfoldable pub with_player_lights : ProtocolSession → ℕ → ProtocolSession
with_player_lights s player_lights = record s { lights = some player_lights }

unfoldable pub with_imu_mode : ProtocolSession → ImuMode → ProtocolSession
unfolding default_state
with_imu_mode s mode = record s { imu_mode = mode; imu_encoding_state = default_state }

unfoldable pub with_imu_encoding_state : ProtocolSession → ImuEncodingState → ProtocolSession
with_imu_encoding_state s state = record s { imu_encoding_state = state }

unfoldable pub with_vibration_enabled : ProtocolSession → Bool → ProtocolSession
with_vibration_enabled s enabled = record s { vibration_enabled = enabled }
