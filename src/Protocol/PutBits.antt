-- ===== src/Protocol/PutBits.antt =====
-- crates/swbt-core/src/protocol/imu.rs, `put_bits`: bit fields in a block of bytes.
use swbt_rs.Base.{
  ℕ, zero, suc, ◌+◌, ◌-◌, ◌*◌, ◌/◌, ◌%◌, ◌^◌, ◌≤◌, ◌<◌, ◌≡◌, ◌≢◌, ◌⊎◌, refl, ◌∙◌, ap, max, not,
  List, arith, ltb, leb, ◌==◌, ◌&&◌, if◌then◌else◌, length, get_or, set, length-set, get_or-set,
  bit_and, bit_or, bit_at, bit_at-lt, bit_at-bit_or, bit_at-pow, bit_and_test,
}

-- `target[absolute / 8] |= 1 << (absolute % 8)`
unfoldable pub or_bit : List ℕ → ℕ → List ℕ
or_bit target absolute =
    set target (absolute / 8) (bit_or (get_or target (absolute / 8) 0) (2 ^ (absolute % 8)))

-- The rounds of the loop that are left, and the next `bit`.
unfoldable pub put_loop : ℕ → ℕ → List ℕ → ℕ → ℕ → List ℕ
put_loop zero bit target start value = target
put_loop (suc rounds) bit target start value =
    put_loop rounds (suc bit)
      (if not (bit_and value (2 ^ bit) == 0) then or_bit target (start + bit) else target) start
      value

unfoldable pub put_bits : List ℕ → ℕ → ℕ → ℕ → List ℕ
put_bits target start width value = put_loop width 0 target start value

-- Bit `p` of a block, counted from the lowest bit of its first byte.
unfoldable pub block_bit : List ℕ → ℕ → ℕ
block_bit block p = bit_at (p % 8) (get_or block (p / 8) 0)

length-or_bit : (t : List ℕ) (q : ℕ) → length (or_bit t q) ≡ length t
unfolding or_bit
length-or_bit t q = length-set t (q / 8) _

or_bit_lem :
    (t : List ℕ) (q p : ℕ)
    → q < 8 * length t
    → block_bit (or_bit t q) p ≡ (if q == p then 1 else block_bit t p)
unfolding or_bit block_bit
or_bit_lem t q p h = ground (
  arith,
  get_or-set t (q / 8) (p / 8) (bit_or (get_or t (q / 8) 0) (2 ^ (q % 8))) 0,
  bit_at-bit_or (p % 8) (get_or t (q / 8) 0) (2 ^ (q % 8)),
  bit_at-pow (p % 8) (q % 8),
  bit_at-lt (p % 8) (get_or t (q / 8) 0),
)

pub block_bit-lt : (t : List ℕ) (p : ℕ) → block_bit t p < 2
unfolding block_bit
block_bit-lt t p = bit_at-lt (p % 8) (get_or t (p / 8) 0)

abbrev step_target : ℕ → List ℕ → ℕ → ℕ → List ℕ
step_target bit t start value =
    if not (bit_and value (2 ^ bit) == 0) then or_bit t (start + bit) else t

length-step :
    (bit : ℕ) (t : List ℕ) (start value : ℕ) → length (step_target bit t start value) ≡ length t
length-step bit t start value = ground (arith, length-or_bit t (start + bit))

step_lem :
    (bit : ℕ) (t : List ℕ) (start value p : ℕ)
    → start + bit < 8 * length t
    → block_bit (step_target bit t start value) p
      ≡ (if (start + bit) == p then max (block_bit t p) (bit_at bit value) else block_bit t p)
step_lem bit t start value p h =
    rw (bit_and_test bit value)
      (ground (arith, or_bit_lem t (start + bit) p, bit_at-lt bit value, block_bit-lt t p))

length-put_loop :
    (n bit : ℕ) (t : List ℕ) (start value : ℕ) → length (put_loop n bit t start value) ≡ length t
unfolding put_loop
length-put_loop zero bit t start value = refl
length-put_loop (suc n) bit t start value =
    length-put_loop n (suc bit) _ start value ∙ length-step bit t start value

this_bit : (start bit value p : ℕ) → start + bit ≡ p → bit_at (p - start) value ≡ bit_at bit value
this_bit start bit value p h = ap (λ (n : ℕ). bit_at n value) (omega arith)

put_loop_lem :
    (n bit : ℕ) (t : List ℕ) (start value p : ℕ)
    → start + bit + n ≤ 8 * length t
    → block_bit (put_loop n bit t start value) p ≡ (
        if leb (start + bit) p && ltb p (start + bit + n)
        then max (block_bit t p) (bit_at (p - start) value)
        else block_bit t p)
unfolding put_loop
put_loop_lem zero bit t start value p h = ground arith
put_loop_lem (suc n) bit t start value p h = ground (
  arith,
  put_loop_lem n (suc bit) (step_target bit t start value) start value p,
  length-step bit t start value,
  step_lem bit t start value p,
  this_bit start bit value p,
)

-- What the bits of a block are after `put_bits`, for a field that lies within the block.
pub put_bits_lem :
    (t : List ℕ) (start width value p : ℕ)
    → start + width ≤ 8 * length t
    → block_bit (put_bits t start width value) p ≡ (
        if leb start p && ltb p (start + width)
        then max (block_bit t p) (bit_at (p - start) value)
        else block_bit t p)
unfolding put_bits
put_bits_lem t start width value p h = ground (arith, put_loop_lem width 0 t start value p)

pub length-put_bits :
    (t : List ℕ) (start width value : ℕ) → length (put_bits t start width value) ≡ length t
unfolding put_bits
length-put_bits t start width value = length-put_loop width 0 t start value

step_byte :
    (bit : ℕ) (t : List ℕ) (start value j : ℕ)
    → start + bit < 8 * length t
    → (start + bit) / 8 ≢ j
    → get_or (step_target bit t start value) j 0 ≡ get_or t j 0
unfolding or_bit
step_byte bit t start value j h ne =
    let absolute = start + bit in
    ground (
      arith,
      get_or-set t (absolute / 8) j (bit_or (get_or t (absolute / 8) 0) (2 ^ (absolute % 8))) 0,
    )

put_loop_byte :
    (n bit : ℕ) (t : List ℕ) (start value j : ℕ)
    → start + bit + n ≤ 8 * length t
    → (j * 8 + 8 ≤ start + bit) ⊎ (start + bit + n ≤ j * 8)
    → get_or (put_loop n bit t start value) j 0 ≡ get_or t j 0
unfolding put_loop
put_loop_byte zero bit t start value j h out = refl
put_loop_byte (suc n) bit t start value j h out =
    let t' = step_target bit t start value in
    let len = length-step bit t start value in
    let out' : (j * 8 + 8 ≤ start + suc bit) ⊎ (start + suc bit + n ≤ j * 8) = omega arith in
    put_loop_byte n (suc bit) t' start value j (omega (arith, len)) out'
    ∙ step_byte bit t start value j (omega arith) (omega arith)

-- A byte that the field does not reach stays.
pub put_bits_byte :
    (t : List ℕ) (start width value j : ℕ)
    → start + width ≤ 8 * length t
    → (j * 8 + 8 ≤ start) ⊎ (start + width ≤ j * 8)
    → get_or (put_bits t start width value) j 0 ≡ get_or t j 0
unfolding put_bits
put_bits_byte t start width value j h out =
    let out' : (j * 8 + 8 ≤ start + 0) ⊎ (start + 0 + width ≤ j * 8) = omega arith in
    put_loop_byte width 0 t start value j (omega arith) out'
