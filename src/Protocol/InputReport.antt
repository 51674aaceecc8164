-- ===== src/Protocol/InputReport.antt =====
-- crates/swbt-core/src/protocol/input_report.rs: the 0x30 input report.
pub mod Buttons
pub mod Sticks
pub mod Report
use swbt_rs.Base.{
  ℕ, ◌+◌, ◌*◌, ◌/◌, ◌%◌, ◌^◌, Option, none, some, List, [], ◌∷◌, get_or, set, replicate, copy_at,
  bit_and, bit_or,
}
use swbt_rs.Model.Button.{ButtonKind}
use swbt_rs.Model.Spec.{ControllerKind, ButtonWirePosition, protocol}
use swbt_rs.Model.Wire.{button_wire_position}
use swbt_rs.Input.Stick.{Stick}
use swbt_rs.Input.State.{InputState, pressed}

abbrev pub input_report_size : ℕ
input_report_size = 49

abbrev pub standard_full_report_id : ℕ
standard_full_report_id = 0x30

pub record PreparedInputReport : Type 0 where
  pub bytes : List ℕ
  pub next_timer : ℕ

-- `[x as u8, ((x >> 8) as u8 & 0x0F) | ((y as u8 & 0x0F) << 4), (y >> 4) as u8]`
unfoldable pub pack_stick : Stick → List ℕ
pack_stick s =
    s.x % 256
    ∷ bit_or (bit_and (s.x / 2 ^ 8 % 256) 0x0F) (bit_and (s.y % 256) 0x0F * 2 ^ 4 % 256)
    ∷ s.y / 2 ^ 4 % 256
    ∷ []

-- `bytes[position.byte_index] |= position.mask`. A button without a position would panic; it
-- cannot be among a model's pressed buttons, and the bytes are left alone here.
unfoldable pub put_button : Option ButtonWirePosition → List ℕ → List ℕ
put_button none bytes = bytes
put_button (some position) bytes =
    set bytes position.byte_index (bit_or (get_or bytes position.byte_index 0) position.mask)

-- `for button in state.buttons()`
unfoldable pub put_buttons : ControllerKind → List ButtonKind → List ℕ → List ℕ
unfolding put_button
put_buttons m [] bytes = bytes
put_buttons m (button ∷ rest) bytes =
    put_buttons m rest (put_button (button_wire_position m button) bytes)

-- The report before the buttons are put in.
unfoldable pub head_bytes : ControllerKind → ℕ → List ℕ
head_bytes m timer =
    set (set (set (replicate input_report_size 0) 0 standard_full_report_id) 1 timer) 2
      (protocol m).battery_connection

unfoldable pub encode_0x30 : ControllerKind → InputState → ℕ → List ℕ → PreparedInputReport
encode_0x30 m state timer imu_block =
    let bytes = put_buttons m (pressed m state) (head_bytes m timer) in
    let bytes = copy_at 6 (pack_stick state.left_stick) bytes in
    let bytes = copy_at 9 (pack_stick state.right_stick) bytes in
    let bytes = set bytes 12 (protocol m).vibrator_input in
    record { bytes = copy_at 13 imu_block bytes; next_timer = (timer + 1) % 256 }
