-- ===== src/Protocol/Imu/Standard.antt =====
-- The standard IMU block read back.
use swbt_rs.Base.{ℕ, ◌+◌, ◌*◌, ◌/◌, ◌%◌, ◌^◌, ◌<◌, ◌≡◌, refl, List, [], ◌∷◌, arith, length, get_or}
use swbt_rs.Input.Imu.{ImuFrame}
use swbt_rs.Protocol.Imu.{encode_standard_imu}

-- Three axes, each a 16-bit pattern.
abbrev pub IsAxes : List ℕ → Type 0
IsAxes (x ∷ y ∷ z ∷ []) = (x < 2 ^ 16) × (y < 2 ^ 16) × (z < 2 ^ 16)
IsAxes _ = ⊥

abbrev pub IsFrame : ImuFrame → Type 0
IsFrame frame = IsAxes frame.accel × IsAxes frame.gyro

-- A host's reading: the 16-bit little-endian value at an offset, and the frame at an index.
abbrev pub read_le16 : List ℕ → ℕ → ℕ
read_le16 block offset = get_or block offset 0 + 256 * get_or block (offset + 1) 0

abbrev pub read_axes : List ℕ → ℕ → List ℕ
read_axes block offset =
    read_le16 block offset ∷ read_le16 block (offset + 2) ∷ read_le16 block (offset + 4) ∷ []

abbrev pub read_frame : List ℕ → ℕ → ImuFrame
read_frame block index = record {
  accel = read_axes block (index * 12);
  gyro = read_axes block (index * 12 + 6);
}

-- A value written as two little-endian bytes and read again.
abbrev pub two_bytes : ℕ → ℕ
two_bytes x = x % 256 + 256 * (x / 256 % 256)

pub axes_back :
    (l : List ℕ)
    → IsAxes l
    → two_bytes (get_or l 0 0) ∷ two_bytes (get_or l 1 0) ∷ two_bytes (get_or l 2 0) ∷ [] ≡ l
axes_back [] h = absurd h
axes_back (x ∷ []) h = absurd h
axes_back (x ∷ y ∷ []) h = absurd h
axes_back (x ∷ y ∷ z ∷ []) h = ground arith
axes_back (x ∷ y ∷ z ∷ u ∷ l) h = absurd h

-- In the standard mode a host that reads the 36 bytes of the block as three frames of six
-- little-endian 16-bit values gets the three frames of the state in their order, if each has
-- three axes of 16 bits for either sensor.
pub read-encode_standard :
    (f0 f1 f2 : ImuFrame)
    → IsFrame f0
    → IsFrame f1
    → IsFrame f2
    → let block = encode_standard_imu (f0 ∷ f1 ∷ f2 ∷ []) in
      (length block ≡ 36)
      × (read_frame block 0 ≡ f0)
      × (read_frame block 1 ≡ f1)
      × (read_frame block 2 ≡ f2)
unfolding encode_standard_imu
read-encode_standard f0 f1 f2 (a0, g0) (a1, g1) (a2, g2) = (
  refl,
  λ i. record { accel = axes_back f0.accel a0 i; gyro = axes_back f0.gyro g0 i },
  λ i. record { accel = axes_back f1.accel a1 i; gyro = axes_back f1.gyro g1 i },
  λ i. record { accel = axes_back f2.accel a2 i; gyro = axes_back f2.gyro g2 i },
)
