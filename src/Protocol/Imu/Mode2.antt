-- ===== src/Protocol/Imu/Mode2.antt =====
-- What a host reads from a block of the quaternion modes.
use swbt_rs.Base.{
  ℕ, zero, suc, ◌*◌, ◌^◌, mul_shifted, by_test, ◌+◌, ◌/◌, ◌%◌, ◌<◌, ◌≡◌, refl, ◌∙◌, ap, Bool, true,
  ◌&&◌, ◌||◌, List, [], ◌∷◌, ◌++◌, arith, ltb, leb, ◌==◌, ==_iff, if◌then◌else◌, length, get_or,
  bit_at, bit_at-zero, replicate, All, take, all_below, all_below_sound,
}
use swbt_rs.Input.Imu.{ImuFrame}
use swbt_rs.Protocol.Floats.{F64Ops}
use swbt_rs.Protocol.PutBits.{block_bit}
use swbt_rs.Protocol.Imu.{put_frames, shr_i64}
use swbt_rs.Protocol.Imu.Standard.{IsAxes, read_axes, axes_back}
use swbt_rs.Protocol.Imu.Quaternion.{
  BitField, put_fields, mode_2_fields, accel_values, largest, component, pack_mode_2,
}
use swbt_rs.Protocol.Imu.Fields.{
  uncovered, Fits, length-put_fields, put_fields_covered, put_fields_byte, Spares,
}

-- A host that reads `width` bits of the block from bit `start` on finds those of the value.
abbrev pub Reads : List ℕ → ℕ → ℕ → ℕ → Type 0
Reads block start width value = (i : ℕ) → i < width → block_bit block (start + i) ≡ bit_at i value

-- The upper bits of a value, after its lowest two.
abbrev pub ReadsUpper : List ℕ → ℕ → ℕ → ℕ → Type 0
ReadsUpper block start width value =
    (i : ℕ) → i < width → block_bit block (start + i) ≡ bit_at (2 + i) value

abbrev ReadsField : List ℕ → BitField → Type 0
ReadsField block field = Reads block field.start field.width field.value

-- A multiple of 2 ^ k does not reach the digits below `k`.
bit_at-add_high : (i k a q : ℕ) → i < k → bit_at i (a + q * 2 ^ k) ≡ bit_at i a
unfolding bit_at
bit_at-add_high i zero a q h = absurd (omega arith)
bit_at-add_high zero (suc k) a q h = omega (arith, mul_shifted k q)
bit_at-add_high (suc i) (suc k) a q h =
    ap (λ (n : ℕ). bit_at i n) (omega (arith, mul_shifted k q))
    ∙ bit_at-add_high i k (a / 2) q (omega arith)

quarter_bits : (i v : ℕ) → bit_at i (v / 4) ≡ bit_at (2 + i) v
unfolding bit_at
quarter_bits i v =
    let e : bit_at i (v / 4) ≡ bit_at (suc (suc i)) v = ap (λ (n : ℕ). bit_at i n) (omega arith) in
    let same : suc (suc i) ≡ 2 + i = omega arith in e ∙ ap (λ (n : ℕ). bit_at n v) same

-- `c2 >> 2` of an `i64` has the bits of `c2` from bit 2 on.
shr_i64_bits : (i v : ℕ) → i < 62 → bit_at i (shr_i64 v 2) ≡ bit_at (2 + i) v
shr_i64_bits i v h =
    by_test (λ (n : ℕ). bit_at i n ≡ bit_at (2 + i) v) (ltb v (2 ^ 63)) (λ _. quarter_bits i v)
      λ _. bit_at-add_high i 62 (v / 4) 3 h ∙ quarter_bits i v

abbrev accel_block : ImuFrame → ImuFrame → ImuFrame → List ℕ
accel_block f0 f1 f2 = put_frames accel_values 0 (f0 ∷ f1 ∷ f2 ∷ []) (replicate 36 0)

-- The bytes that hold no accelerometer value.
abbrev is_spare : ℕ → Bool
is_spare j = (leb 6 j && ltb j 12) || ((leb 18 j && ltb j 24) || leb 30 j)

spare_table :
    (f0 f1 f2 : ImuFrame)
    → all_below 36 (λ j. if is_spare j then get_or (accel_block f0 f1 f2) j 0 == 0 else true) ≡ true
unfolding all_below put_frames
spare_table f0 f1 f2 = refl

spare_zero :
    (f0 f1 f2 : ImuFrame) (j : ℕ)
    → j < 36
    → is_spare j ≡ true
    → get_or (accel_block f0 f1 f2) j 0 ≡ 0
spare_zero f0 f1 f2 j h s = (==_iff _ 0).0 (
    rw s at (
      all_below_sound 36 (λ j. if is_spare j then get_or (accel_block f0 f1 f2) j 0 == 0 else true)
        j (spare_table f0 f1 f2) h))

spare_bit :
    (f0 f1 f2 : ImuFrame) (p : ℕ)
    → p < 288
    → is_spare (p / 8) ≡ true
    → block_bit (accel_block f0 f1 f2) p ≡ 0
unfolding block_bit
spare_bit f0 f1 f2 p h s =
    ap (bit_at (p % 8)) (spare_zero f0 f1 f2 (p / 8) (omega arith) s) ∙ bit_at-zero (p % 8)

axes_same :
    (b b' : List ℕ) (o : ℕ)
    → get_or b o 0 ≡ get_or b' o 0
    → get_or b (o + 1) 0 ≡ get_or b' (o + 1) 0
    → get_or b (o + 2) 0 ≡ get_or b' (o + 2) 0
    → get_or b (o + 2 + 1) 0 ≡ get_or b' (o + 2 + 1) 0
    → get_or b (o + 4) 0 ≡ get_or b' (o + 4) 0
    → get_or b (o + 4 + 1) 0 ≡ get_or b' (o + 4 + 1) 0
    → read_axes b o ≡ read_axes b' o
axes_same b b' o h0 h1 h2 h3 h4 h5 = cc

module _ (f0 f1 f2 : ImuFrame) (m c0 c1 c2 t n : ℕ) where
  abbrev fields : List BitField
  fields = mode_2_fields m c0 c1 c2 t n

  abbrev packed : List ℕ
  packed = put_fields fields (accel_block f0 f1 f2)

  accel_length : length (accel_block f0 f1 f2) ≡ 36
  unfolding put_frames
  accel_length = refl

  fits : Fits fields (length (accel_block f0 f1 f2))
  unfolding mode_2_fields put_frames
  fits = omega arith

  -- Bit `p` is free before a field is put there: no other field covers it, and it lies in a byte
  -- without an accelerometer value.
  abbrev free : List BitField → List BitField → ℕ → Bool
  free before rest p = uncovered before p && (uncovered rest p && (is_spare (p / 8) && ltb p 288))

  reads :
      (before : List BitField) (field : BitField) (rest : List BitField)
      → Fits (before ++ (field ∷ rest)) (length (accel_block f0 f1 f2))
      → all_below field.width (λ i. free before rest (field.start + i)) ≡ true
      → ReadsField (put_fields (before ++ (field ∷ rest)) (accel_block f0 f1 f2)) field
  reads before field rest fit table i h =
      let p = field.start + i in
      let is_free =
        all_below_sound field.width (λ i. free before rest (field.start + i)) i table h in
      put_fields_covered before field rest (accel_block f0 f1 f2) i fit (ground arith)
        (ground arith) (spare_bit f0 f1 f2 p (ground arith) (ground arith)) h

  All-ReadsField : All (ReadsField packed) fields
  unfolding mode_2_fields all_below
  All-ReadsField = (
    reads [] _ _ fits refl,
    (
      reads (take 1 fields) _ _ fits refl,
      (
        reads (take 2 fields) _ _ fits refl,
        (
          reads (take 3 fields) _ _ fits refl,
          (
            reads (take 4 fields) _ _ fits refl,
            (
              reads (take 5 fields) _ _ fits refl,
              (reads (take 6 fields) _ _ fits refl, (reads (take 7 fields) _ _ fits refl, tt)),
            ),
          ),
        ),
      ),
    ),
  )

  -- The bytes of the accelerometer values are not touched.
  accel_byte : (j : ℕ) → Spares fields j → get_or packed j 0 ≡ get_or (accel_block f0 f1 f2) j 0
  accel_byte j free = put_fields_byte fields (accel_block f0 f1 f2) j fits free

  accel_axes :
      (read_axes packed 0 ≡ read_axes (accel_block f0 f1 f2) 0)
      × (read_axes packed 12 ≡ read_axes (accel_block f0 f1 f2) 12)
      × (read_axes packed 24 ≡ read_axes (accel_block f0 f1 f2) 24)
  unfolding mode_2_fields
  accel_axes = (
    axes_same packed (accel_block f0 f1 f2) 0 (accel_byte 0 (omega arith))
        (accel_byte 1 (omega arith)) (accel_byte 2 (omega arith)) (accel_byte 3 (omega arith))
        (accel_byte 4 (omega arith)) (accel_byte 5 (omega arith)),
    axes_same packed (accel_block f0 f1 f2) 12 (accel_byte 12 (omega arith))
        (accel_byte 13 (omega arith)) (accel_byte 14 (omega arith)) (accel_byte 15 (omega arith))
        (accel_byte 16 (omega arith)) (accel_byte 17 (omega arith)),
    axes_same packed (accel_block f0 f1 f2) 24 (accel_byte 24 (omega arith))
        (accel_byte 25 (omega arith)) (accel_byte 26 (omega arith)) (accel_byte 27 (omega arith))
        (accel_byte 28 (omega arith)) (accel_byte 29 (omega arith)),
  )

accel_block_axes :
    (f0 f1 f2 : ImuFrame)
    → IsAxes f0.accel
    → IsAxes f1.accel
    → IsAxes f2.accel
    → (read_axes (accel_block f0 f1 f2) 0 ≡ f0.accel)
      × (read_axes (accel_block f0 f1 f2) 12 ≡ f1.accel)
      × (read_axes (accel_block f0 f1 f2) 24 ≡ f2.accel)
unfolding put_frames
accel_block_axes f0 f1 f2 a0 a1 a2 =
    (axes_back f0.accel a0, axes_back f1.accel a1, axes_back f2.accel a2)

-- What a host reads from the bits of a block: the mode 2, the index of the largest component, the
-- three other components, the time and the number of frames.
abbrev pub ReadsQuaternion : List ℕ → ℕ → ℕ → ℕ → ℕ → ℕ → ℕ → Type 0
ReadsQuaternion block max_index c0 c1 c2 timestamp_ms frame_count =
    Reads block 48 2 2
    × Reads block 50 2 max_index
    × Reads block 52 21 c0
    × Reads block 73 21 c1
    × Reads block 94 2 c2
    × ReadsUpper block 144 19 c2
    × Reads block 271 11 timestamp_ms
    × Reads block 282 6 frame_count

All-ReadsQuaternion :
    (block : List ℕ) (m c0 c1 c2 t n : ℕ)
    → All (ReadsField block) (mode_2_fields m c0 c1 c2 t n)
    → ReadsQuaternion block m c0 c1 c2 t n
unfolding mode_2_fields
All-ReadsQuaternion block m c0 c1 c2 t n (r0, (r1, (r2, (r3, (r4, (r5, (r6, (r7, _)))))))) =
    (r0, r1, r2, r3, r4, (λ i h. r5 i h ∙ shr_i64_bits i c2 (omega arith)), r6, r7)

-- In a quaternion mode a block of three frames has 36 bytes, and a host finds in it, bit by bit: the
-- mode 2 at bits 48 and 49; the index of the largest component at bits 50 and 51; the first of the
-- other three components, 21 bits, from bit 52 and the second from bit 73; the lowest two bits of the
-- third at bits 94 and 95 and its next 19 bits from bit 144; 11 bits of the time in milliseconds from
-- bit 271 and the number of frames, 6 bits, from bit 282. It reads the three frames' accelerometer
-- axes from the bytes 0, 12 and 24, if these are 16-bit values.
pub pack_mode_2-Reads :
    (f : F64Ops) (f0 f1 f2 : ImuFrame) (orientation : List ℕ) (t : ℕ)
    → IsAxes f0.accel
    → IsAxes f1.accel
    → IsAxes f2.accel
    → let block = pack_mode_2 f (f0 ∷ f1 ∷ f2 ∷ []) orientation t in
      (length block ≡ 36)
      × ReadsQuaternion block
          (largest f orientation)
          (component f orientation 0)
          (component f orientation 1)
          (component f orientation 2)
          t
          3
      × (read_axes block 0 ≡ f0.accel)
      × (read_axes block 12 ≡ f1.accel)
      × (read_axes block 24 ≡ f2.accel)
unfolding pack_mode_2
pack_mode_2-Reads f f0 f1 f2 orientation t a0 a1 a2 =
    let m = largest f orientation in
    let c0 = component f orientation 0 in
    let c1 = component f orientation 1 in
    let c2 = component f orientation 2 in
    let (x, y, z) = accel_axes f0 f1 f2 m c0 c1 c2 t 3 in
    let (x', y', z') = accel_block_axes f0 f1 f2 a0 a1 a2 in
    (
      length-put_fields (mode_2_fields m c0 c1 c2 t 3) (accel_block f0 f1 f2)
          ∙ accel_length f0 f1 f2 m c0 c1 c2 t 3,
      All-ReadsQuaternion (put_fields (mode_2_fields m c0 c1 c2 t 3) (accel_block f0 f1 f2)) m c0 c1
          c2 t 3 (All-ReadsField f0 f1 f2 m c0 c1 c2 t 3),
      x ∙ x',
      y ∙ y',
      z ∙ z',
    )
