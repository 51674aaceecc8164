-- ===== src/Protocol/Imu.antt =====
-- crates/swbt-core/src/protocol/imu.rs: the IMU block of an input report. `i16`, `i32` and `i64`
-- are bit patterns; the floating-point operations are the parameter `f`.
pub mod Standard
pub mod Quaternion
pub mod Fields
pub mod Mode2
use swbt_rs.Base.{
  ℕ, zero, suc, ◌+◌, ◌-◌, ◌*◌, ◌/◌, ◌%◌, ◌^◌, Option, none, some, List, [], ◌∷◌, ◌++◌, map, ltb,
  ◌==◌, if◌then◌else◌, length, get_or, copy_at, replicate, bit_and,
}
use swbt_rs.Model.Spec.{SensorCalibration}
use swbt_rs.Input.Imu.{ImuFrame}
use swbt_rs.Protocol.Floats.{
  F64Ops, zero_f64, one_f64, minus_one_f64, two_f64, billion_f64, quaternion_scale,
  gyro_dps_per_raw,
}
use swbt_rs.Protocol.PutBits.{put_bits}

pub data ImuMode : Type 0 where
  disabled standard quaternion1 quaternion2 quaternion3 quaternion4 : ImuMode

unfoldable pub from_wire : ℕ → Option ImuMode
from_wire value =
    if value == 0x00
    then some disabled
    else if value == 0x01
    then some standard
    else if value == 0x02
    then some quaternion1
    else if value == 0x03
    then some quaternion2
    else if value == 0x04
    then some quaternion3
    else if value == 0x05
    then some quaternion4
    else none

-- `mode as u8`
unfoldable pub to_wire : ImuMode → ℕ
to_wire disabled = 0x00
to_wire standard = 0x01
to_wire quaternion1 = 0x02
to_wire quaternion2 = 0x03
to_wire quaternion3 = 0x04
to_wire quaternion4 = 0x05

abbrev pub block_size : ℕ
block_size = 36

-- `orientation` has four components.
pub record ImuEncodingState : Type 0 where
  pub orientation : List ℕ
  pub previous_report_ns : Option ℕ

unfoldable pub default_state : ImuEncodingState
default_state = record {
  orientation = zero_f64 ∷ zero_f64 ∷ zero_f64 ∷ one_f64 ∷ [];
  previous_report_ns = none;
}

pub record ImuEncodingResult : Type 0 where
  pub block : List ℕ
  pub next_state : ImuEncodingState

-- `value.to_le_bytes()` of a 16-bit pattern.
abbrev pub le16 : ℕ → List ℕ
le16 value = value % 256 ∷ value / 256 % 256 ∷ []

-- The inner loop: the values that are left go to `offset`, `offset + 2`, and so on.
unfoldable pub put_values : ℕ → List ℕ → List ℕ → List ℕ
put_values offset [] block = block
put_values offset (value ∷ rest) block =
    put_values (offset + 2) rest (copy_at offset (le16 value) block)

-- `[accel[0], accel[1], accel[2], gyro[0], gyro[1], gyro[2]]`
abbrev pub frame_values : ImuFrame → List ℕ
frame_values frame =
    get_or frame.accel 0 0
    ∷ get_or frame.accel 1 0
    ∷ get_or frame.accel 2 0
    ∷ get_or frame.gyro 0 0
    ∷ get_or frame.gyro 1 0
    ∷ get_or frame.gyro 2 0
    ∷ []

unfoldable pub put_frames : (ImuFrame → List ℕ) → ℕ → List ImuFrame → List ℕ → List ℕ
unfolding put_values
put_frames values index [] block = block
put_frames values index (frame ∷ rest) block =
    put_frames values (index + 1) rest (put_values (index * 12) (values frame) block)

unfoldable pub encode_standard_imu : List ImuFrame → List ℕ
unfolding put_frames
encode_standard_imu frames = put_frames frame_values 0 frames (replicate block_size 0)

-- `i32::from` of an `i16`, and the difference of two such values, which fits an `i32`.
abbrev pub i32_of_i16 : ℕ → ℕ
i32_of_i16 v = if ltb v (2 ^ 15) then v else v + (2 ^ 32 - 2 ^ 16)

abbrev pub sub_i32 : ℕ → ℕ → ℕ
sub_i32 x y = (x + 2 ^ 32 - y) % 2 ^ 32

-- `>>` of an `i64` keeps the sign.
abbrev pub shr_i64 : ℕ → ℕ → ℕ
shr_i64 v k = if ltb v (2 ^ 63) then v / 2 ^ k else v / 2 ^ k + (2 ^ 64 - 2 ^ 64 / 2 ^ k)

module _ (f : F64Ops) where
  unfoldable pub gyro_rates : ImuFrame → SensorCalibration → List ℕ
  gyro_rates frame calibration = axis 0 ∷ axis 1 ∷ axis 2 ∷ []
    where
      axis : ℕ → ℕ
      axis n =
          let calibrated =
            sub_i32 (i32_of_i16 (get_or frame.gyro n 0))
              (i32_of_i16 (get_or calibration.zero_raw n 0)) in
          f.to_radians (f.mul (f.of_i32 calibrated) gyro_dps_per_raw)

  abbrev at : List ℕ → ℕ → ℕ
  at values n = get_or values n zero_f64

  unfoldable pub hamilton_product : List ℕ → List ℕ → List ℕ
  hamilton_product left right =
      let lx = at left 0 in
      let ly = at left 1 in
      let lz = at left 2 in
      let lw = at left 3 in
      let rx = at right 0 in
      let ry = at right 1 in
      let rz = at right 2 in
      let rw' = at right 3 in
      f.sub (f.add (f.add (f.mul lw rx) (f.mul lx rw')) (f.mul ly rz)) (f.mul lz ry)
      ∷ f.sub (f.add (f.add (f.mul lw ry) (f.mul ly rw')) (f.mul lz rx)) (f.mul lx rz)
      ∷ f.sub (f.add (f.add (f.mul lw rz) (f.mul lz rw')) (f.mul lx ry)) (f.mul ly rx)
      ∷ f.sub (f.sub (f.sub (f.mul lw rw') (f.mul lx rx)) (f.mul ly ry)) (f.mul lz rz)
      ∷ []

  -- The square root of the sum of squares.
  unfoldable pub norm : List ℕ → ℕ
  norm values = f.sqrt (f.sum (map (λ value. f.mul value value) values))

  unfoldable pub normalize : List ℕ → List ℕ
  normalize value =
      let inverse = f.div one_f64 (norm value) in map (λ component. f.mul component inverse) value

  unfoldable pub next_orientation : List ℕ → List ℕ → ℕ → List ℕ
  next_orientation orientation rates_rad_s elapsed_seconds =
      let rotation = map (λ rate. f.mul rate elapsed_seconds) rates_rad_s in
      let magnitude = norm rotation in
      if f.eq magnitude zero_f64
      then orientation
      else (let half_angle = f.div magnitude two_f64 in
          let vector_scale = f.div (f.sin half_angle) magnitude in
          let delta =
            f.mul (at rotation 0) vector_scale
            ∷ f.mul (at rotation 1) vector_scale
            ∷ f.mul (at rotation 2) vector_scale
            ∷ f.cos half_angle
            ∷ [] in
          normalize (hamilton_product orientation delta))
