-- ===== src/Protocol/InputReport/Buttons.antt =====
-- The button bits of an input report.
use swbt_rs.Base.{
  ℕ, ◌^◌, ◌≤◌, ◌<◌, ◌≡◌, refl, sym, ap, ◌∙◌, ◌⊎◌, inl, inr, max, Bool, true, not, ◌&&◌, ◌||◌,
  Option, none, some, List, [], ◌∷◌, arith, length, get_or, length-set, get_or-set, ◌==◌, ==_iff,
  Bool-cases, if◌then◌else◌, any, filterb, bit_and, bit_or, bit_at, bit_at-bit_or, bit_and_test,
  bit_at-zero, eq_refl,
}
use swbt_rs.Model.Button.{ButtonKind, kind_eq, eq_of_kind_eq}
use swbt_rs.Model.Spec.{ControllerKind, ButtonWirePosition}
use swbt_rs.Model.Wire.{
  button_wire_position, supported_buttons, supports_button, supports_button-any,
}
use swbt_rs.Input.ButtonSet.{contains, iter}
use swbt_rs.Input.State.{InputState, pressed}
use swbt_rs.Protocol.InputReport.{put_button, put_buttons}

-- What one button adds to bit `b` of byte `j`.
abbrev pub hit : Option ButtonWirePosition → ℕ → ℕ → ℕ
hit none j b = 0
hit (some position) j b = if position.byte_index == j then bit_at b position.mask else 0

-- What the listed buttons add.
abbrev pub hits : ControllerKind → List ButtonKind → ℕ → ℕ → ℕ
hits m [] j b = 0
hits m (button ∷ rest) j b = max (hit (button_wire_position m button) j b) (hits m rest j b)

-- A button's bytes are 3 to 5.
abbrev pub Near : Option ButtonWirePosition → Type 0
Near none = Unit {0}
Near (some position) = (3 ≤ position.byte_index) × (position.byte_index ≤ 5)

position-Near : (m : ControllerKind) (k : ButtonKind) → Near (button_wire_position m k)
unfolding button_wire_position
position-Near ControllerKind.pro ButtonKind.a = omega arith
position-Near ControllerKind.joycon_l ButtonKind.a = tt
position-Near ControllerKind.joycon_r ButtonKind.a = omega arith
position-Near _ _ = omega arith

pub length-put_button :
    (o : Option ButtonWirePosition) (bytes : List ℕ) → length (put_button o bytes) ≡ length bytes
unfolding put_button
length-put_button none bytes = refl
length-put_button (some p) bytes = length-set bytes p.byte_index _

put_button_bit :
    (o : Option ButtonWirePosition) (bytes : List ℕ) (j b : ℕ)
    → Near o
    → 6 ≤ length bytes
    → bit_at b (get_or (put_button o bytes) j 0) ≡ max (bit_at b (get_or bytes j 0)) (hit o j b)
unfolding put_button
put_button_bit none bytes j b near h = omega arith
put_button_bit (some p) bytes j b near h = ground (
  arith,
  get_or-set bytes p.byte_index j (bit_or (get_or bytes p.byte_index 0) p.mask) 0,
  bit_at-bit_or b (get_or bytes p.byte_index 0) p.mask,
)

pub length-put_buttons :
    (m : ControllerKind) (l : List ButtonKind) (bytes : List ℕ)
    → length (put_buttons m l bytes) ≡ length bytes
unfolding put_buttons
length-put_buttons m [] bytes = refl
length-put_buttons m (k ∷ rest) bytes =
    length-put_buttons m rest _ ∙ length-put_button (button_wire_position m k) bytes

pub put_buttons_bit :
    (m : ControllerKind) (l : List ButtonKind) (bytes : List ℕ) (j b : ℕ)
    → 6 ≤ length bytes
    → bit_at b (get_or (put_buttons m l bytes) j 0)
      ≡ max (bit_at b (get_or bytes j 0)) (hits m l j b)
unfolding put_buttons
put_buttons_bit m [] bytes j b h = omega arith
put_buttons_bit m (k ∷ rest) bytes j b h = omega (
  arith,
  put_buttons_bit m rest (put_button (button_wire_position m k) bytes) j b
      (omega (arith, length-put_button (button_wire_position m k) bytes)),
  put_button_bit (button_wire_position m k) bytes j b (position-Near m k) h,
)

-- A byte before the buttons' bytes, or behind them, stays.
pub put_buttons_byte :
    (m : ControllerKind) (l : List ButtonKind) (bytes : List ℕ) (j : ℕ)
    → 6 ≤ length bytes
    → (j < 3) ⊎ (5 < j)
    → get_or (put_buttons m l bytes) j 0 ≡ get_or bytes j 0
unfolding put_buttons
put_buttons_byte m [] bytes j h out = refl
put_buttons_byte m (k ∷ rest) bytes j h out =
    put_buttons_byte m rest (put_button (button_wire_position m k) bytes) j
      (omega (arith, length-put_button (button_wire_position m k) bytes)) out
    ∙ one (button_wire_position m k) (position-Near m k)
  where
    one :
        (o : Option ButtonWirePosition)
        → Near o
        → get_or (put_button o bytes) j 0 ≡ get_or bytes j 0
    one none near = unfold put_button in refl
    one (some p) near =
        unfold put_button in
        ground
          (arith, get_or-set bytes p.byte_index j (bit_or (get_or bytes p.byte_index 0) p.mask) 0)

-- No listed button but `k` reaches bit `b` of byte `j`.
abbrev alone : ControllerKind → ButtonKind → ℕ → ℕ → List ButtonKind → Bool
alone m k j b [] = true
alone m k j b (other ∷ rest) =
    (kind_eq k other || hit (button_wire_position m other) j b == 0) && alone m k j b rest

hits-alone :
    (m : ControllerKind) (s : InputState) (k : ButtonKind) (j b : ℕ) (l : List ButtonKind)
    → alone m k j b l ≡ true
    → hits m (filterb (contains s.buttons) l) j b ≡ (
        if any (kind_eq k) l && contains s.buttons k then hit (button_wire_position m k) j b else 0)
hits-alone m s k j b [] h = refl
hits-alone m s k j b (other ∷ rest) h = elim (Bool-cases (kind_eq k other)) [
  | inl e ↦
      let same : other ≡ k = sym (eq_of_kind_eq k other e) in
      ground (
        arith,
        ap (contains s.buttons) same,
        ap (λ (o : ButtonKind). hit (button_wire_position m o) j b) same,
        hits-alone m s k j b rest,
      )
  | inr e ↦ ground (arith, hits-alone m s k j b rest)
]

-- The bit of a mask with one bit.
mask_index : ℕ → ℕ
mask_index mask =
    if mask == 1
    then 0
    else if mask == 2
    then 1
    else if mask == 4
    then 2
    else if mask == 8
    then 3
    else if mask == 16
    then 4
    else if mask == 32
    then 5
    else if mask == 64
    then 6
    else 7

-- The position of `k` is one bit of a byte, and no other button of the model has it.
abbrev own_bit : ControllerKind → ButtonKind → Option ButtonWirePosition → Bool
own_bit m k none = true
own_bit m k (some p) =
    (p.mask == 2 ^ mask_index p.mask)
    && (alone m k p.byte_index (mask_index p.mask) (supported_buttons m)
        && (bit_at (mask_index p.mask) p.mask == 1))

own_bit_table :
    (m : ControllerKind) (k : ButtonKind) → own_bit m k (button_wire_position m k) ≡ true
unfolding button_wire_position supported_buttons kind_eq bit_at mask_index
own_bit_table ControllerKind.pro ButtonKind.a = refl
own_bit_table ControllerKind.joycon_l ButtonKind.a = refl
own_bit_table ControllerKind.joycon_r ButtonKind.a = refl
own_bit_table _ _ = refl

own_bit_of :
    (m : ControllerKind) (k : ButtonKind) (p : ButtonWirePosition)
    → button_wire_position m k ≡ some p
    → own_bit m k (some p) ≡ true
own_bit_of m k p e = rw e at (own_bit_table m k)

pub place_bounds :
    (m : ControllerKind) (k : ButtonKind) (p : ButtonWirePosition)
    → button_wire_position m k ≡ some p
    → Near (some p)
place_bounds m k p e = rw e at (position-Near m k)

listed :
    (m : ControllerKind) (k : ButtonKind) (p : ButtonWirePosition)
    → button_wire_position m k ≡ some p
    → any (kind_eq k) (supported_buttons m) ≡ true
unfolding supports_button
listed m k p e = sym (supports_button-any m k) ∙ rw e

and_parts : (p q : Bool) → (p && q) ≡ true → (p ≡ true) × (q ≡ true)
and_parts p q h = ground arith

mask_test : (byte mask b : ℕ) → mask ≡ 2 ^ b → not (bit_and byte mask == 0) ≡ (bit_at b byte == 1)
mask_test byte mask b h = rw h (bit_and_test b byte)

-- The button's own bit, after all pressed buttons were put in.
own_digit :
    (m : ControllerKind) (s : InputState) (bytes : List ℕ) (k : ButtonKind) (p : ButtonWirePosition)
    → button_wire_position m k ≡ some p
    → 6 ≤ length bytes
    → get_or bytes p.byte_index 0 ≡ 0
    → (b : ℕ) → alone m k p.byte_index b (supported_buttons m) ≡ true
    → bit_at b p.mask ≡ 1
    → bit_at b (get_or (put_buttons m (pressed m s) bytes) p.byte_index 0)
      ≡ (if contains s.buttons k then 1 else 0)
unfolding pressed iter
own_digit m s bytes k p e h z b single one =
    put_buttons_bit m (filterb (contains s.buttons) (supported_buttons m)) bytes p.byte_index b h
    ∙ rw
        (
          z,
          bit_at-zero,
          hits-alone m s k p.byte_index b (supported_buttons m) single,
          listed m k p e,
          e,
          eq_refl p.byte_index,
          one,
        )
        (last (contains s.buttons k))
  where
    last : (c : Bool) → max 0 (if true && c then 1 else 0) ≡ (if c then 1 else 0)
    last c = ground arith

-- With the buttons' bytes zero before, the bit of a button shows whether it is pressed.
pub pressed_bit :
    (m : ControllerKind) (s : InputState) (bytes : List ℕ) (k : ButtonKind) (p : ButtonWirePosition)
    → button_wire_position m k ≡ some p
    → 6 ≤ length bytes
    → get_or bytes p.byte_index 0 ≡ 0
    → not (bit_and (get_or (put_buttons m (pressed m s) bytes) p.byte_index 0) p.mask == 0)
      ≡ contains s.buttons k
pressed_bit m s bytes k p e h z =
    let b = mask_index p.mask in
    let (power, rest) = and_parts (p.mask == 2 ^ b) _ (own_bit_of m k p e) in
    let (single, one) = and_parts (alone m k p.byte_index b (supported_buttons m)) _ rest in
    let byte = get_or (put_buttons m (pressed m s) bytes) p.byte_index 0 in
    mask_test byte p.mask b ((==_iff p.mask (2 ^ b)).0 power)
    ∙ rw (own_digit m s bytes k p e h z b single ((==_iff (bit_at b p.mask) 1).0 one))
        (last (contains s.buttons k))
  where
    last : (c : Bool) → ((if c then 1 else 0) == 1) ≡ c
    last c = ground arith
