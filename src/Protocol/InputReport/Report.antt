-- ===== src/Protocol/InputReport/Report.antt =====
-- The whole 0x30 report read back.
use swbt_rs.Base.{
  ℕ, zero, suc, ◌+◌, ◌-◌, ◌%◌, ◌≤◌, ◌<◌, ◌≡◌, refl, ap, ◌∙◌, not, ◌&&◌, some, List, arith, length,
  get_or, get_or-set, length-set, set, get_or-copy_at, length-copy_at, copy_at, leb, ltb, ◌==◌,
  if◌then◌else◌, bit_and,
}
use swbt_rs.Model.Button.{ButtonKind}
use swbt_rs.Model.Spec.{ControllerKind, ButtonWirePosition, protocol}
use swbt_rs.Model.Wire.{button_wire_position}
use swbt_rs.Input.Stick.{Stick, IsValid}
use swbt_rs.Input.ButtonSet.{contains}
use swbt_rs.Input.State.{InputState, pressed}
use swbt_rs.Protocol.InputReport.{put_buttons, head_bytes, pack_stick, encode_0x30}
use swbt_rs.Protocol.InputReport.Buttons.{
  pressed_bit, place_bounds, length-put_buttons, put_buttons_byte,
}
use swbt_rs.Protocol.InputReport.Sticks.{read_stick, read-pack_stick}

length-head : (m : ControllerKind) (timer : ℕ) → length (head_bytes m timer) ≡ 49
unfolding head_bytes
length-head m timer = refl

length-pack_stick : (s : Stick) → length (pack_stick s) ≡ 3
unfolding pack_stick
length-pack_stick s = refl

head_zero :
    (m : ControllerKind) (timer j : ℕ) → (3 ≤ j) × (j ≤ 5) → get_or (head_bytes m timer) j 0 ≡ 0
unfolding head_bytes
head_zero m timer zero h = absurd (omega arith)
head_zero m timer (suc zero) h = absurd (omega arith)
head_zero m timer (suc (suc zero)) h = absurd (omega arith)
head_zero m timer (suc (suc (suc zero))) h = refl
head_zero m timer (suc (suc (suc (suc zero)))) h = refl
head_zero m timer (suc (suc (suc (suc (suc zero))))) h = refl
head_zero m timer (suc (suc (suc (suc (suc (suc j)))))) h = absurd (omega arith)

same_stick :
    (bytes : List ℕ) (o : ℕ) (packed : List ℕ)
    → get_or bytes o 0 ≡ get_or packed 0 0
    → get_or bytes (o + 1) 0 ≡ get_or packed 1 0
    → get_or bytes (o + 2) 0 ≡ get_or packed 2 0
    → read_stick bytes o ≡ read_stick packed 0
same_stick bytes o packed h0 h1 h2 = cc

-- Byte `j` of a report, from the buttons' bytes, the two sticks and the IMU block.
module _ (m : ControllerKind) (s : InputState) (timer : ℕ) (imu : List ℕ)
    (imu_size : length imu ≡ 36) where
  abbrev bytes : List ℕ
  bytes = (encode_0x30 m s timer imu).bytes

  abbrev buttons_part : List ℕ
  buttons_part = put_buttons m (pressed m s) (head_bytes m timer)

  abbrev left_part : List ℕ
  left_part = copy_at 6 (pack_stick s.left_stick) buttons_part

  abbrev right_part : List ℕ
  right_part = copy_at 9 (pack_stick s.right_stick) left_part

  abbrev vibrator_part : List ℕ
  vibrator_part = set right_part 12 (protocol m).vibrator_input

  size0 : length buttons_part ≡ 49
  size0 = length-put_buttons m (pressed m s) (head_bytes m timer) ∙ length-head m timer

  size1 : length left_part ≡ 49
  size1 = length-copy_at 6 (pack_stick s.left_stick) buttons_part ∙ size0

  size2 : length right_part ≡ 49
  size2 = length-copy_at 9 (pack_stick s.right_stick) left_part ∙ size1

  size3 : length vibrator_part ≡ 49
  size3 = length-set right_part 12 (protocol m).vibrator_input ∙ size2

  pub length-encode : length bytes ≡ 49
  unfolding encode_0x30
  length-encode = length-copy_at 13 imu vibrator_part ∙ size3

  byte_lem :
      (j : ℕ)
      → get_or bytes j 0 ≡ (
          if leb 13 j && ltb j 49
          then get_or imu (j - 13) 0
          else if 12 == j
          then (protocol m).vibrator_input
          else if leb 9 j && ltb j 12
          then get_or (pack_stick s.right_stick) (j - 9) 0
          else if leb 6 j && ltb j 9
          then get_or (pack_stick s.left_stick) (j - 6) 0
          else get_or buttons_part j 0)
  unfolding encode_0x30
  byte_lem j = ground (
    arith,
    get_or-copy_at 13 imu vibrator_part j 0,
    get_or-set right_part 12 j (protocol m).vibrator_input 0,
    get_or-copy_at 9 (pack_stick s.right_stick) left_part j 0,
    get_or-copy_at 6 (pack_stick s.left_stick) buttons_part j 0,
    imu_size,
    size0,
    size1,
    size2,
    size3,
    length-pack_stick s.left_stick,
    length-pack_stick s.right_stick,
  )

  -- The bytes in front of the sticks.
  front_byte : (j : ℕ) → j < 6 → get_or bytes j 0 ≡ get_or buttons_part j 0
  front_byte j h = ground (arith, byte_lem j)

  imu_byte : (i : ℕ) → i < 36 → get_or bytes (13 + i) 0 ≡ get_or imu i 0
  imu_byte i h = ground (arith, byte_lem (13 + i), back i)
    where
      back : (i : ℕ) → get_or imu (13 + i - 13) 0 ≡ get_or imu i 0
      back i = ap (λ (n : ℕ). get_or imu n 0) (omega arith)

  left_bytes : read_stick bytes 6 ≡ read_stick (pack_stick s.left_stick) 0
  left_bytes = same_stick bytes 6 (pack_stick s.left_stick) (byte_lem 6) (byte_lem 7) (byte_lem 8)

  right_bytes : read_stick bytes 9 ≡ read_stick (pack_stick s.right_stick) 0
  right_bytes =
      same_stick bytes 9 (pack_stick s.right_stick) (byte_lem 9) (byte_lem 10) (byte_lem 11)

  head_byte : (j : ℕ) → j < 3 → get_or bytes j 0 ≡ get_or (head_bytes m timer) j 0
  head_byte j h =
      front_byte j (omega arith)
      ∙ put_buttons_byte m (pressed m s) (head_bytes m timer) j (omega (arith, length-head m timer))
          (omega arith)

  own_byte :
      (k : ButtonKind) (p : ButtonWirePosition)
      → button_wire_position m k ≡ some p
      → not (bit_and (get_or bytes p.byte_index 0) p.mask == 0) ≡ contains s.buttons k
  own_byte k p e =
      let near = place_bounds m k p e in
      rw (front_byte p.byte_index (omega arith)) (
        pressed_bit m s (head_bytes m timer) k p e (omega (arith, length-head m timer))
          (head_zero m timer p.byte_index near))

-- A host's view of a report: what each part says of a state.
pub record Shows (m : ControllerKind) (s : InputState) (timer : ℕ) (imu bytes : List ℕ)
    : Type 0 where
  pub size : length bytes ≡ 49
  pub id : get_or bytes 0 0 ≡ 0x30
  pub counter : get_or bytes 1 0 ≡ timer
  pub battery : get_or bytes 2 0 ≡ (protocol m).battery_connection
  pub vibrator : get_or bytes 12 0 ≡ (protocol m).vibrator_input
  pub button :
      (k : ButtonKind) (p : ButtonWirePosition)
      → button_wire_position m k ≡ some p
      → not (bit_and (get_or bytes p.byte_index 0) p.mask == 0) ≡ contains s.buttons k
  pub left : read_stick bytes 6 ≡ s.left_stick
  pub right : read_stick bytes 9 ≡ s.right_stick
  pub imu_block : (i : ℕ) → i < 36 → get_or bytes (13 + i) 0 ≡ get_or imu i 0

-- For every model and state with valid sticks, every timer and 36-byte IMU block, the input report
-- has 49 bytes: the identifier 0x30, the timer, the model's battery byte and vibrator byte at their
-- places; the bit of each button that the model has is set exactly if the button is in the state;
-- a host that reads the two sticks gets the state's sticks; the IMU block follows unchanged; and
-- the next timer is the timer plus one modulo 256.
pub encode_0x30-Shows :
    (m : ControllerKind) (s : InputState) (timer : ℕ) (imu : List ℕ)
    → length imu ≡ 36
    → IsValid s.left_stick
    → IsValid s.right_stick
    → Shows m s timer imu (encode_0x30 m s timer imu).bytes
      × ((encode_0x30 m s timer imu).next_timer ≡ (timer + 1) % 256)
encode_0x30-Shows m s timer imu h left right = (
  record {
    size = length-encode m s timer imu h;
    id = head_byte m s timer imu h 0 (omega arith) ∙ unfold head_bytes in refl;
    counter = head_byte m s timer imu h 1 (omega arith) ∙ unfold head_bytes in refl;
    battery = head_byte m s timer imu h 2 (omega arith) ∙ unfold head_bytes in refl;
    vibrator = byte_lem m s timer imu h 12;
    button = own_byte m s timer imu h;
    left = left_bytes m s timer imu h ∙ read-pack_stick s.left_stick left;
    right = right_bytes m s timer imu h ∙ read-pack_stick s.right_stick right;
    imu_block = imu_byte m s timer imu h;
  },
  unfold encode_0x30 in refl,
)
