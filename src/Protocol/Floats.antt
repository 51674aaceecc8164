-- ===== src/Protocol/Floats.antt =====
-- The `f64` operations of the Rust core library that the IMU encoding calls. A float is its
-- 64-bit pattern, so that states that hold floats are plain data; the operations are a parameter.
use swbt_rs.Base.{ℕ, Bool, List}

pub record F64Ops : Type 0 where
  pub add : ℕ → ℕ → ℕ
  pub sub : ℕ → ℕ → ℕ
  pub mul : ℕ → ℕ → ℕ
  pub div : ℕ → ℕ → ℕ
  -- `Iterator::sum`
  pub sum : List ℕ → ℕ
  pub sqrt : ℕ → ℕ
  pub sin : ℕ → ℕ
  pub cos : ℕ → ℕ
  pub abs : ℕ → ℕ
  pub to_radians : ℕ → ℕ
  -- `a == b`, `a < b`
  pub eq : ℕ → ℕ → Bool
  pub lt : ℕ → ℕ → Bool
  -- `u64 as f64`; `f64::from(i32)` of a bit pattern below 2 ^ 32
  pub of_u64 : ℕ → ℕ
  pub of_i32 : ℕ → ℕ
  -- `f64 as i64`, as a bit pattern below 2 ^ 64
  pub to_i64 : ℕ → ℕ

-- The patterns of the literals.
abbrev pub zero_f64 : ℕ
zero_f64 = 0x0

abbrev pub one_f64 : ℕ
one_f64 = 0x3ff0000000000000

abbrev pub minus_one_f64 : ℕ
minus_one_f64 = 0xbff0000000000000

abbrev pub two_f64 : ℕ
two_f64 = 0x4000000000000000

-- 1_000_000_000.0
abbrev pub billion_f64 : ℕ
billion_f64 = 0x41cdcd6500000000

-- 1_073_741_824.0
abbrev pub quaternion_scale : ℕ
quaternion_scale = 0x41d0000000000000

-- 0.070
abbrev pub gyro_dps_per_raw : ℕ
gyro_dps_per_raw = 0x3fb1eb851eb851ec
