-- ===== src/Protocol/Spi/Reads.antt =====
-- What a read of the virtual flash returns.
use swbt_rs.Base.{
  ℕ, zero, suc, ◌+◌, ◌≤◌, ◌<◌, ◌^◌, ◌≡◌, refl, ap, ◌∙◌, List, [], ◌∷◌, ◌++◌, arith, Bool-cases,
  ltb→lt, inl, inr, ltb, leb, length, set, take, length-set, replicate, ok, err,
}
use mathlib.Core.List.{append-nil, append_assoc}
use native.Mathlib.Nat.{add-zero}
use swbt_rs.Model.Spec.{ControllerKind}
use swbt_rs.Protocol.Error.{ProtocolResult, spi_read_too_large, spi_address_out_of_range}
use swbt_rs.Protocol.Spi.{
  VirtualSpiFlash, SpiRead, as_slice, byte_at, read_loop, read, max_read_size, address_limit,
  erased_byte,
}

-- `n` bytes of a flash from an address on.
abbrev pub bytes_from : (ℕ → ℕ) → ℕ → ℕ → List ℕ
bytes_from byte address zero = []
bytes_from byte address (suc n) = byte address ∷ bytes_from byte (suc address) n

pub length-bytes_from : (byte : ℕ → ℕ) (address n : ℕ) → length (bytes_from byte address n) ≡ n
length-bytes_from byte address zero = refl
length-bytes_from byte address (suc n) = ap suc (length-bytes_from byte (suc address) n)

take-set :
    (bytes : List ℕ) (n v : ℕ)
    → n < length bytes
    → take (suc n) (set bytes n v) ≡ take n bytes ++ (v ∷ [])
take-set [] n v h = absurd (omega arith)
take-set (x ∷ bytes) zero v h = refl
take-set (x ∷ bytes) (suc n) v h = ap (λ (t : List ℕ). x ∷ t) (take-set bytes n v (omega arith))

-- What the loop leaves of a block: its first `offset` bytes, and the bytes read.
take-read_loop :
    (byte : ℕ → ℕ) (n offset address : ℕ) (bytes : List ℕ)
    → offset + n ≤ length bytes
    → take (offset + n) (read_loop byte n offset address bytes)
      ≡ take offset bytes ++ bytes_from byte (address + offset) n
unfolding read_loop
take-read_loop byte zero offset address bytes h = rw (add-zero, append-nil)
take-read_loop byte (suc n) offset address bytes h =
    let v = byte (address + offset) in
    let rest = bytes_from byte (suc (address + offset)) n in
    ap (λ (k : ℕ). take k (read_loop byte n (suc offset) address (set bytes offset v)))
      (omega arith)
    ∙ take-read_loop byte n (suc offset) address (set bytes offset v)
        (omega (arith, length-set bytes offset v))
    ∙ ap (λ (a : ℕ). take (suc offset) (set bytes offset v) ++ bytes_from byte a n) (omega arith)
    ∙ ap (λ (t : List ℕ). t ++ rest) (take-set bytes offset v (omega arith))
    ∙ append_assoc (take offset bytes) (v ∷ []) rest

-- The answers to a read.
abbrev pub Answers : ControllerKind → VirtualSpiFlash → ℕ → ℕ → ProtocolResult SpiRead → Type 0
Answers m flash address size (ok r) =
    (size ≤ 0x1D)
    × (address + size ≤ 0x80000)
    × (as_slice r ≡ bytes_from (byte_at m flash) address size)
Answers m flash address size (err (spi_read_too_large n maximum)) =
    (0x1D < size) × (n ≡ size) × (maximum ≡ 0x1D)
Answers m flash address size (err (spi_address_out_of_range a n)) =
    (size ≤ 0x1D) × (0x80000 < address + size) × (a ≡ address) × (n ≡ size)
Answers m flash address size (err _) = ⊥

whole_slice :
    (byte : ℕ → ℕ) (address size : ℕ)
    → size ≤ max_read_size
    → take size (read_loop byte size 0 address (replicate max_read_size erased_byte))
      ≡ bytes_from byte address size
whole_slice byte address size h =
    ap (λ (k : ℕ). take k (read_loop byte size 0 address (replicate max_read_size erased_byte)))
      (omega arith)
    ∙ take-read_loop byte size 0 address (replicate max_read_size erased_byte) (omega arith)
    ∙ ap (λ (a : ℕ). bytes_from byte a size) (omega arith)

-- A read is answered with exactly the bytes of the flash from the address on, as many as were asked
-- for, if at most 29 bytes are asked for and they end at or below 0x80000; a larger size is refused
-- as too large, and otherwise a range that goes beyond the limit, also one that would overflow 32
-- bits, as out of range, with the request's numbers.
pub read-Answers :
    (m : ControllerKind) (flash : VirtualSpiFlash) (address size : ℕ)
    → Answers m flash address size (read m flash address size)
unfolding read as_slice
read-Answers m flash address size = elim (Bool-cases (ltb max_read_size size)) [
  | inl big ↦ rw big (ltb→lt max_read_size size big, refl, refl)
  | inr fits ↦ elim (Bool-cases (leb (2 ^ 32) (address + size))) [
    | inl over ↦ rw (fits, over) (ground arith, ground arith, refl, refl)
    | inr small ↦ elim (Bool-cases (ltb address_limit (address + size))) [
      | inl out ↦ rw (fits, small, out) (ground arith, ground arith, refl, refl)
      | inr inside ↦
          rw (fits, small, inside)
            (ground arith, ground arith, whole_slice (byte_at m flash) address size (ground arith))
    ]
  ]
]
