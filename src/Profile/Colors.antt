-- ===== src/Profile/Colors.antt =====
-- crates/swbt-core/src/profile/colors.rs: 24-bit colors and the bytes of the virtual flash.
use swbt_rs.Base.{
  Bool-cases, inl, inr, ◌⊎◌, ltb, ltb→lt, ℕ, ◌+◌, ◌*◌, ◌/◌, ◌%◌, ◌^◌, ◌<◌, ◌≤◌, ◌≡◌, List, [], ◌∷◌,
  ◌++◌, ◌∙◌, arith, leb, if◌then◌else◌, Result, ok, err, bit_and, bit_or, bit_or_shifted,
  bit_and_low,
}
use swbt_rs.Error.{Error, ErrorKind}

-- The packed `0xRRGGBB` value.
pub record Rgb24 : Type 0 where
  pub value : ℕ

-- `(red as u32) << 16 | (green as u32) << 8 | blue as u32`
unfoldable pub rgb : ℕ → ℕ → ℕ → Rgb24
rgb red green blue = record { value = bit_or (bit_or (red * 2 ^ 16) (green * 2 ^ 8)) blue }

unfoldable pub components : Rgb24 → List ℕ
components c =
    bit_and (c.value / 2 ^ 16) 0xFF % 256
    ∷ bit_and (c.value / 2 ^ 8) 0xFF % 256
    ∷ bit_and c.value 0xFF % 256
    ∷ []

unfoldable pub try_from : ℕ → Result Error Rgb24
try_from value =
    if leb value 0xFF_FFFF
    then ok (record { value = value })
    else err (Error.new ErrorKind.invalid_input)

pub record ControllerColors : Type 0 where
  pub body : Rgb24
  pub buttons : Rgb24
  pub left_grip : Rgb24
  pub right_grip : Rgb24

-- Each color's three components, in the order of the four fields.
unfoldable pub to_spi_bytes : ControllerColors → List ℕ
to_spi_bytes c =
    components c.body
    ++ (components c.buttons ++ (components c.left_grip ++ components c.right_grip))

unfoldable pub default_colors : ControllerColors
unfolding rgb
default_colors = record {
  body = rgb 0x32 0x32 0x32;
  buttons = rgb 0xFF 0xFF 0xFF;
  left_grip = rgb 0x00 0xB2 0xFF;
  right_grip = rgb 0xFF 0x3B 0x30;
}

rgb_sum : (r g b : ℕ) → g < 256 → b < 256 → (rgb r g b).value ≡ r * 2 ^ 16 + g * 2 ^ 8 + b
unfolding rgb
rgb_sum r g b hg hb = rw (packed, bit_or_shifted 8 (r * 2 ^ 8 + g) b hb) (omega arith)
  where
    packed : bit_or (r * 2 ^ 16) (g * 2 ^ 8) ≡ (r * 2 ^ 8 + g) * 2 ^ 8
    packed = bit_or_shifted 16 r (g * 2 ^ 8) (omega arith) ∙ omega arith

components_digits :
    (c : Rgb24) → components c ≡ c.value / 2 ^ 16 % 256 ∷ c.value / 2 ^ 8 % 256 ∷ c.value % 256 ∷ []
unfolding components
components_digits c =
    rw (bit_and_low 8 (c.value / 2 ^ 16), bit_and_low 8 (c.value / 2 ^ 8), bit_and_low 8 c.value)
      (ground arith)

-- For every three bytes, packing them into a color and taking its components returns the three
-- bytes in order.
pub components-rgb :
    (r g b : ℕ) → r < 256 → g < 256 → b < 256 → components (rgb r g b) ≡ r ∷ g ∷ b ∷ []
components-rgb r g b hr hg hb = rw components_digits (ground (arith, rgb_sum r g b hg hb))

try_from_cases :
    (v : ℕ)
    → (v < 2 ^ 24 → try_from v ≡ ok (rgb (v / 2 ^ 16 % 256) (v / 2 ^ 8 % 256) (v % 256)))
      × (2 ^ 24 ≤ v → try_from v ≡ err (Error.new ErrorKind.invalid_input))
unfolding try_from
try_from_cases v = (λ h. ground (arith, repack v h), λ h. ground arith)
  where
    repack : (v : ℕ) → v < 2 ^ 24 → (rgb (v / 2 ^ 16 % 256) (v / 2 ^ 8 % 256) (v % 256)).value ≡ v
    repack v h =
        omega (
          arith,
          rgb_sum (v / 2 ^ 16 % 256) (v / 2 ^ 8 % 256) (v % 256) (omega arith) (omega arith),
        )

-- A value below 2 ^ 24 is accepted as the color that packs its three bytes, and every other value
-- is refused as invalid input.
pub try_from-components :
    (v : ℕ)
    → ((v < 2 ^ 24) × (try_from v ≡ ok (rgb (v / 2 ^ 16 % 256) (v / 2 ^ 8 % 256) (v % 256))))
      ⊎ ((2 ^ 24 ≤ v) × (try_from v ≡ err (Error.new ErrorKind.invalid_input)))
try_from-components v = elim (Bool-cases (ltb v (2 ^ 24))) [
  | inl e ↦ let h = ltb→lt v (2 ^ 24) e in inl (h, (try_from_cases v).0 h)
  | inr e ↦ let h : 2 ^ 24 ≤ v = ground arith in inr (h, (try_from_cases v).1 h)
]
