-- ===== src/Input/Imu.antt =====
-- crates/swbt-core/src/input/imu.rs: raw six-axis frames. An `i16` is its bit pattern, below
-- 2 ^ 16. The conversions from and to physical units are floating-point code, not modelled.
use swbt_rs.Base.{ℕ, List, [], ◌∷◌, replicate}

pub record ImuFrame : Type 0 where
  pub accel : List ℕ
  pub gyro : List ℕ

unfoldable pub neutral : ImuFrame
neutral = record { accel = replicate 3 0; gyro = replicate 3 0 }

unfoldable pub raw : List ℕ → List ℕ → ImuFrame
raw accel gyro = record { accel = accel; gyro = gyro }

unfoldable pub with_accel : ImuFrame → List ℕ → ImuFrame
with_accel f accel = record { accel = accel; gyro = f.gyro }

unfoldable pub with_gyro : ImuFrame → List ℕ → ImuFrame
with_gyro f gyro = record { accel = f.accel; gyro = gyro }

pub data ImuSamples : Type 0 where
  repeat : ImuFrame → ImuSamples
  frames : ImuFrame → ImuFrame → ImuFrame → ImuSamples

unfoldable pub into_frames : ImuSamples → List ImuFrame
into_frames (repeat frame) = replicate 3 frame
into_frames (frames first second third) = first ∷ second ∷ third ∷ []
