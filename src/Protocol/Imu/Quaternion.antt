-- ===== src/Protocol/Imu/Quaternion.antt =====
-- crates/swbt-core/src/protocol/imu.rs: the quaternion modes and the choice of the mode.
use swbt_rs.Base.{
  ℕ, zero, suc, ◌+◌, ◌-◌, ◌/◌, none, some, List, [], ◌∷◌, if◌then◌else◌, length, get_or, replicate,
  bit_and,
}
use swbt_rs.Model.Spec.{SensorCalibration}
use swbt_rs.Input.Imu.{ImuFrame}
use swbt_rs.Protocol.Floats.{
  F64Ops, zero_f64, one_f64, minus_one_f64, billion_f64, quaternion_scale,
}
use swbt_rs.Protocol.PutBits.{put_bits}
use swbt_rs.Protocol.Imu.{
  ImuMode, disabled, standard, ImuEncodingState, default_state, ImuEncodingResult, block_size,
  put_frames, encode_standard_imu, shr_i64, gyro_rates, next_orientation,
}

-- The accelerometer axes of one frame, in their order.
abbrev pub accel_values : ImuFrame → List ℕ
accel_values frame = get_or frame.accel 0 0 ∷ get_or frame.accel 1 0 ∷ get_or frame.accel 2 0 ∷ []

-- One `put_bits` call: start, width and value.
pub record BitField : Type 0 where
  pub start : ℕ
  pub width : ℕ
  pub value : ℕ

-- `put_bits` calls in their order.
unfoldable pub put_fields : List BitField → List ℕ → List ℕ
put_fields [] block = block
put_fields (field ∷ rest) block =
    put_fields rest (put_bits block field.start field.width field.value)

-- The eight calls at the end of `pack_mode_2`.
unfoldable pub mode_2_fields : ℕ → ℕ → ℕ → ℕ → ℕ → ℕ → List BitField
mode_2_fields max_index c0 c1 c2 timestamp_ms frame_count =
    record { start = 48; width = 2; value = 2 }
    ∷ record { start = 50; width = 2; value = max_index }
    ∷ record { start = 52; width = 21; value = c0 }
    ∷ record { start = 73; width = 21; value = c1 }
    ∷ record { start = 94; width = 2; value = c2 }
    ∷ record { start = 144; width = 19; value = shr_i64 c2 2 }
    ∷ record { start = 271; width = 11; value = timestamp_ms }
    ∷ record { start = 282; width = 6; value = frame_count }
    ∷ []

-- `saturating_sub` is the truncated difference.
unfoldable pub elapsed_ns : ImuEncodingState → ℕ → ℕ
elapsed_ns current now_ns = elim current.previous_report_ns [
  | none ↦ 0
  | some previous ↦ now_ns - previous
]

module _ (f : F64Ops) where
  abbrev at : List ℕ → ℕ → ℕ
  at values n = get_or values n zero_f64

  -- The loop `for index in 1..4`: the rounds left, the next index, the best index so far.
  unfoldable pub max_loop : List ℕ → ℕ → ℕ → ℕ → ℕ
  max_loop orientation zero index best = best
  max_loop orientation (suc rounds) index best =
      max_loop orientation rounds (index + 1)
        (if f.lt (f.abs (at orientation best)) (f.abs (at orientation index)) then index else best)

  unfoldable pub largest : List ℕ → ℕ
  largest orientation = max_loop orientation 3 1 0

  -- One of the three components that are packed.
  unfoldable pub component : List ℕ → ℕ → ℕ
  component orientation index =
      let max_index = largest orientation in
      let sign = if f.lt (at orientation max_index) zero_f64 then minus_one_f64 else one_f64 in
      shr_i64
        (f.to_i64 (
          f.mul (f.mul (at orientation (bit_and (max_index + index + 1) 3)) sign) quaternion_scale))
        10

  unfoldable pub pack_mode_2 : List ImuFrame → List ℕ → ℕ → List ℕ
  pack_mode_2 frames orientation timestamp_ms =
      put_fields
        (mode_2_fields (largest orientation) (component orientation 0) (component orientation 1)
          (component orientation 2) timestamp_ms (length frames))
        (put_frames accel_values 0 frames (replicate block_size 0))

  -- `for frame in frames`
  unfoldable pub integrate : SensorCalibration → ℕ → List ImuFrame → List ℕ → List ℕ
  integrate calibration seconds [] orientation = orientation
  integrate calibration seconds (frame ∷ rest) orientation =
      integrate calibration seconds rest
        (next_orientation f orientation (gyro_rates f frame calibration) seconds)

  unfoldable pub encode_quaternion_imu :
      ImuEncodingState → List ImuFrame → SensorCalibration → ℕ → ImuEncodingResult
  encode_quaternion_imu current frames calibration now_ns =
      let sample_seconds =
        f.div (f.div (f.of_u64 (elapsed_ns current now_ns)) billion_f64)
          (f.of_u64 (length frames)) in
      let orientation = integrate calibration sample_seconds frames current.orientation in
      record {
        block = pack_mode_2 frames orientation (now_ns / 1_000_000);
        next_state = record { orientation = orientation; previous_report_ns = some now_ns };
      }

  unfoldable pub encode_imu_block :
      ImuEncodingState → ImuMode → List ImuFrame → SensorCalibration → ℕ → ImuEncodingResult
  unfolding encode_standard_imu default_state
  encode_imu_block current disabled frames calibration now_ns = record {
    block = replicate block_size 0;
    next_state = default_state;
  }
  encode_imu_block current standard frames calibration now_ns = record {
    block = encode_standard_imu frames;
    next_state = default_state;
  }
  encode_imu_block current _ frames calibration now_ns =
      encode_quaternion_imu current frames calibration now_ns
