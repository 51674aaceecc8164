-- ===== src/Input/Stick.antt =====
-- crates/swbt-core/src/input/stick.rs: a stick with two 12-bit axes. The constructors from
-- floating-point values are not modelled.
use swbt_rs.Base.{ℕ, ◌≤◌, leb, if◌then◌else◌, Result, ok, err, ◌>>◌}
use swbt_rs.Error.{Error, ErrorKind}

pub record Stick : Type 0 where
  pub x : ℕ
  pub y : ℕ

abbrev pub max_axis : ℕ
max_axis = 4095

abbrev pub center_axis : ℕ
center_axis = 2048

unfoldable pub center : Stick
center = record { x = center_axis; y = center_axis }

unfoldable pub validate_raw_axis : ℕ → Result Error (Unit {0})
validate_raw_axis value =
    if leb value max_axis then ok tt else err (Error.new ErrorKind.invalid_input)

unfoldable pub raw : ℕ → ℕ → Result Error Stick
unfolding validate_raw_axis
raw x y = do validate_raw_axis x; validate_raw_axis y; ok (record { x = x; y = y })

-- Both axes fit 12 bits.
abbrev pub IsValid : Stick → Type 0
IsValid s = (s.x ≤ max_axis) × (s.y ≤ max_axis)
