-- ===== src/Model/Spec.antt =====
-- crates/swbt-core/src/model/mod.rs: the declarations of the three controller models, which the
-- macro `controller_models` expands.
use Prim.Native.String.{String}
use swbt_rs.Base.{ℕ, Bool, true, false, List, [], ◌∷◌, replicate}
use swbt_rs.Model.Button.{ButtonKind}
use swbt_rs.Model.Hid.{HidSdpPolicySpec, pro_policy, joycon_policy, report_descriptor}
use swbt_rs.Profile.Colors.{ControllerColors, rgb}

pub data ControllerKind : Type 0 where
  pro joycon_l joycon_r : ControllerKind

pub record ButtonWirePosition : Type 0 where
  pub byte_index : ℕ
  pub mask : ℕ

-- An `i16` is its bit pattern, below 2 ^ 16.
pub record SensorCalibration : Type 0 where
  pub zero_raw : List ℕ
  pub reference_raw : List ℕ

pub record ModelProtocolSpec : Type 0 where
  pub local_name : String
  pub class_of_device : ℕ
  pub device_type : ℕ
  pub device_info_tail : List ℕ
  pub battery_connection : ℕ
  pub vibrator_input : ℕ
  pub pairing_trigger_buttons : List ButtonKind
  pub accepted_imu_modes : List ℕ
  pub default_colors : ControllerColors
  pub accelerometer_calibration : SensorCalibration
  pub gyroscope_calibration : SensorCalibration
  pub hid_report_descriptor : List ℕ
  pub hid_sdp_policy : HidSdpPolicySpec

-- `ModelProtocolSpec::new`
unfoldable pub protocol_spec :
    String
    → ℕ
    → ℕ
    → List ℕ
    → List ButtonKind
    → ControllerColors
    → HidSdpPolicySpec
    → ModelProtocolSpec
unfolding report_descriptor
protocol_spec name device_class type tail triggers colors policy = record {
  local_name = name;
  class_of_device = device_class;
  device_type = type;
  device_info_tail = tail;
  battery_connection = 0x80;
  vibrator_input = 0x00;
  pairing_trigger_buttons = triggers;
  accepted_imu_modes = 0 ∷ 1 ∷ 2 ∷ 3 ∷ 4 ∷ 5 ∷ [];
  default_colors = colors;
  accelerometer_calibration = record {
    zero_raw = replicate 3 0;
    reference_raw = replicate 3 0x4000;
  };
  gyroscope_calibration = record { zero_raw = replicate 3 0; reference_raw = replicate 3 0x343B };
  hid_report_descriptor = report_descriptor;
  hid_sdp_policy = policy;
}

unfoldable pub protocol : ControllerKind → ModelProtocolSpec
unfolding protocol_spec rgb pro_policy joycon_policy
protocol pro =
    protocol_spec "Pro Controller" 0x002508 0x03 (0x03 ∷ 0x02 ∷ [])
      (ButtonKind.l ∷ ButtonKind.r ∷ [])
      (record {
        body = rgb 0x32 0x32 0x32;
        buttons = rgb 0xFF 0xFF 0xFF;
        left_grip = rgb 0x00 0xB2 0xFF;
        right_grip = rgb 0xFF 0x3B 0x30;
      })
      pro_policy
protocol joycon_l =
    protocol_spec "Joy-Con (L)" 0x002508 0x01 (0x01 ∷ 0x01 ∷ [])
      (ButtonKind.sl ∷ ButtonKind.sr ∷ [])
      (record {
        body = rgb 0x00 0xB2 0xFF;
        buttons = rgb 0x32 0x32 0x32;
        left_grip = rgb 0x00 0xB2 0xFF;
        right_grip = rgb 0x00 0xB2 0xFF;
      })
      joycon_policy
protocol joycon_r =
    protocol_spec "Joy-Con (R)" 0x002508 0x02 (0x01 ∷ 0x01 ∷ [])
      (ButtonKind.sl ∷ ButtonKind.sr ∷ [])
      (record {
        body = rgb 0xFF 0x3B 0x30;
        buttons = rgb 0x32 0x32 0x32;
        left_grip = rgb 0xFF 0x3B 0x30;
        right_grip = rgb 0xFF 0x3B 0x30;
      })
      joycon_policy

-- The `buttons:` block of each model, from which the macro makes both button lists.
unfoldable pub button_table : ControllerKind → List (ButtonKind × ButtonWirePosition)
button_table pro =
    (ButtonKind.a, record { byte_index = 3; mask = 0x08 })
    ∷ (ButtonKind.b, record { byte_index = 3; mask = 0x04 })
    ∷ (ButtonKind.x, record { byte_index = 3; mask = 0x02 })
    ∷ (ButtonKind.y, record { byte_index = 3; mask = 0x01 })
    ∷ (ButtonKind.l, record { byte_index = 5; mask = 0x40 })
    ∷ (ButtonKind.r, record { byte_index = 3; mask = 0x40 })
    ∷ (ButtonKind.zl, record { byte_index = 5; mask = 0x80 })
    ∷ (ButtonKind.zr, record { byte_index = 3; mask = 0x80 })
    ∷ (ButtonKind.plus, record { byte_index = 4; mask = 0x02 })
    ∷ (ButtonKind.minus, record { byte_index = 4; mask = 0x01 })
    ∷ (ButtonKind.home, record { byte_index = 4; mask = 0x10 })
    ∷ (ButtonKind.capture, record { byte_index = 4; mask = 0x20 })
    ∷ (ButtonKind.left_stick, record { byte_index = 4; mask = 0x08 })
    ∷ (ButtonKind.right_stick, record { byte_index = 4; mask = 0x04 })
    ∷ (ButtonKind.dpad_up, record { byte_index = 5; mask = 0x02 })
    ∷ (ButtonKind.dpad_down, record { byte_index = 5; mask = 0x01 })
    ∷ (ButtonKind.dpad_left, record { byte_index = 5; mask = 0x08 })
    ∷ (ButtonKind.dpad_right, record { byte_index = 5; mask = 0x04 })
    ∷ []
button_table joycon_l =
    (ButtonKind.l, record { byte_index = 5; mask = 0x40 })
    ∷ (ButtonKind.zl, record { byte_index = 5; mask = 0x80 })
    ∷ (ButtonKind.minus, record { byte_index = 4; mask = 0x01 })
    ∷ (ButtonKind.capture, record { byte_index = 4; mask = 0x20 })
    ∷ (ButtonKind.left_stick, record { byte_index = 4; mask = 0x08 })
    ∷ (ButtonKind.sl, record { byte_index = 5; mask = 0x20 })
    ∷ (ButtonKind.sr, record { byte_index = 5; mask = 0x10 })
    ∷ (ButtonKind.dpad_up, record { byte_index = 5; mask = 0x02 })
    ∷ (ButtonKind.dpad_down, record { byte_index = 5; mask = 0x01 })
    ∷ (ButtonKind.dpad_left, record { byte_index = 5; mask = 0x08 })
    ∷ (ButtonKind.dpad_right, record { byte_index = 5; mask = 0x04 })
    ∷ []
button_table joycon_r =
    (ButtonKind.a, record { byte_index = 3; mask = 0x08 })
    ∷ (ButtonKind.b, record { byte_index = 3; mask = 0x04 })
    ∷ (ButtonKind.x, record { byte_index = 3; mask = 0x02 })
    ∷ (ButtonKind.y, record { byte_index = 3; mask = 0x01 })
    ∷ (ButtonKind.r, record { byte_index = 3; mask = 0x40 })
    ∷ (ButtonKind.zr, record { byte_index = 3; mask = 0x80 })
    ∷ (ButtonKind.plus, record { byte_index = 4; mask = 0x02 })
    ∷ (ButtonKind.home, record { byte_index = 4; mask = 0x10 })
    ∷ (ButtonKind.right_stick, record { byte_index = 4; mask = 0x04 })
    ∷ (ButtonKind.sl, record { byte_index = 3; mask = 0x20 })
    ∷ (ButtonKind.sr, record { byte_index = 3; mask = 0x10 })
    ∷ []

unfoldable pub profile_name : ControllerKind → String
profile_name pro = "pro"
profile_name joycon_l = "joycon_l"
profile_name joycon_r = "joycon_r"

unfoldable pub has_left_stick : ControllerKind → Bool
has_left_stick pro = true
has_left_stick joycon_l = true
has_left_stick joycon_r = false

unfoldable pub has_right_stick : ControllerKind → Bool
has_right_stick pro = true
has_right_stick joycon_l = false
has_right_stick joycon_r = true
