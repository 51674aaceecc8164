-- ===== src/Input/State.antt =====
-- crates/swbt-core/src/input/state.rs: the complete input state of a controller.
use swbt_rs.Base.{List, replicate}
use swbt_rs.Model.Button.{ButtonKind}
use swbt_rs.Model.Spec.{ControllerKind}
use swbt_rs.Input.Stick.{Stick, center}
use swbt_rs.Input.Imu
use swbt_rs.Input.Imu.{ImuFrame, ImuSamples}
use swbt_rs.Input.ButtonSet.{ButtonSet, empty, from_iter, iter}

-- `imu_frames` is an array of three.
pub record InputState : Type 0 where
  pub buttons : ButtonSet
  pub left_stick : Stick
  pub right_stick : Stick
  pub imu_frames : List ImuFrame

unfoldable pub neutral : InputState
unfolding empty center Imu.neutral
neutral = record {
  buttons = empty;
  left_stick = center;
  right_stick = center;
  imu_frames = replicate 3 Imu.neutral;
}

unfoldable pub with_buttons : InputState → List ButtonKind → InputState
unfolding from_iter
with_buttons s buttons = record s { buttons = from_iter buttons }

unfoldable pub with_imu : InputState → ImuSamples → InputState
unfolding Imu.into_frames
with_imu s samples = record s { imu_frames = Imu.into_frames samples }

-- `InputState::buttons`
unfoldable pub pressed : ControllerKind → InputState → List ButtonKind
unfolding iter
pressed m s = iter m s.buttons

unfoldable pub wire_sticks : InputState → Stick × Stick
wire_sticks s = (s.left_stick, s.right_stick)

unfoldable pub with_left_stick : InputState → Stick → InputState
with_left_stick s stick = record s { left_stick = stick }

unfoldable pub with_right_stick : InputState → Stick → InputState
with_right_stick s stick = record s { right_stick = stick }

unfoldable pub with_sticks : InputState → Stick → Stick → InputState
with_sticks s left right = record s { left_stick = left; right_stick = right }
