-- ===== src/Protocol/Facade/Outcome/Flash.antt =====
-- What a read of the flash may answer.
use swbt_rs.Base.{
  ℕ, suc, ◌+◌, ◌≤◌, ◌<◌, ◌≡◌, refl, ap, ◌∙◌, false, by_test, none, some, List, [], ◌∷◌, ◌++◌, arith,
  ltb, ◌==◌, length, take, copy_at, replicate, ok, err, ◌>>=◌,
}
use swbt_rs.Model.Spec.{ControllerKind}
use swbt_rs.Input.State.{InputState}
use swbt_rs.Protocol.Error.{
  ProtocolResult, truncated_spi_read_request, spi_read_too_large, spi_address_out_of_range,
}
use swbt_rs.Protocol.OutputReport.{SubcommandRequest}
use swbt_rs.Protocol.Spi.{VirtualSpiFlash, SpiRead, read, as_slice, byte_at, max_read_size}
use swbt_rs.Protocol.Spi.Reads.{Answers, read-Answers, bytes_from, length-bytes_from}
use swbt_rs.Protocol.Subcommand.{prepare_0x21, answered, Reply, try_prepare_spi_reply}
use swbt_rs.Protocol.Facade.Outcome.Expected.{Replied, flash_read, address_of, size_of}
use swbt_rs.Protocol.Facade.Outcome.Replies.{short_answer}

take-copy_at :
    (src dst : List ℕ) → length src ≤ length dst → take (length src) (copy_at 0 src dst) ≡ src
take-copy_at [] dst h = refl
take-copy_at (x ∷ src) [] h = absurd (omega arith)
take-copy_at (x ∷ src) (y ∷ dst) h = ap (λ (t : List ℕ). x ∷ t) (take-copy_at src dst (omega arith))

-- The first five bytes of the payload, and then the bytes that were read.
read_data :
    (payload bytes : List ℕ)
    → 5 ≤ length payload
    → length bytes ≤ 29
    → take
        (5 + length bytes)
        (copy_at 5 bytes (copy_at 0 (take 5 payload) (replicate (5 + max_read_size) 0)))
      ≡ take 5 payload ++ bytes
read_data (a ∷ b ∷ c ∷ d ∷ e ∷ rest) bytes h fits =
    let size : 5 + length bytes ≡ suc (suc (suc (suc (suc (length bytes))))) = omega arith in
    ap
      (λ (n : ℕ). take n (
        copy_at 5 bytes
          (copy_at 0 (take 5 (a ∷ b ∷ c ∷ d ∷ e ∷ rest)) (replicate (5 + max_read_size) 0))))
      size
    ∙ ap (λ (t : List ℕ). a ∷ b ∷ c ∷ d ∷ e ∷ t) (take-copy_at bytes (replicate 29 0) (omega arith))
read_data [] bytes h fits = absurd (omega arith)
read_data (a ∷ []) bytes h fits = absurd (omega arith)
read_data (a ∷ b ∷ []) bytes h fits = absurd (omega arith)
read_data (a ∷ b ∷ c ∷ []) bytes h fits = absurd (omega arith)
read_data (a ∷ b ∷ c ∷ d ∷ []) bytes h fits = absurd (omega arith)

length-head :
    (payload bytes : List ℕ)
    → 5 ≤ length payload
    → length (take 5 payload ++ bytes) ≡ 5 + length bytes
length-head (a ∷ b ∷ c ∷ d ∷ e ∷ rest) bytes h = omega arith
length-head [] bytes h = absurd (omega arith)
length-head (a ∷ []) bytes h = absurd (omega arith)
length-head (a ∷ b ∷ []) bytes h = absurd (omega arith)
length-head (a ∷ b ∷ c ∷ []) bytes h = absurd (omega arith)
length-head (a ∷ b ∷ c ∷ d ∷ []) bytes h = absurd (omega arith)

module _ (m : ControllerKind) (address : List ℕ) (flash : VirtualSpiFlash) (q : SubcommandRequest)
    (s : InputState) (timer : ℕ) where
  abbrev pub SpiReply : Reply → Type 0
  SpiReply (ok none) = (q.id == 0x10) ≡ false
  SpiReply (ok (some r)) = Replied m address flash q s timer r
  SpiReply (err (truncated_spi_read_request minimum actual)) =
      (q.id ≡ 0x10) × (minimum ≡ 5) × (actual ≡ length q.payload) × (actual < 5)
  SpiReply (err (spi_read_too_large n maximum)) =
      (q.id ≡ 0x10)
      × (5 ≤ length q.payload)
      × (n ≡ size_of q.payload)
      × (maximum ≡ 0x1D)
      × (0x1D < n)
  SpiReply (err (spi_address_out_of_range a n)) =
      (q.id ≡ 0x10)
      × (5 ≤ length q.payload)
      × (a ≡ address_of q.payload)
      × (n ≡ size_of q.payload)
      × (n ≤ 0x1D)
      × (0x80000 < a + n)
  SpiReply (err _) = ⊥

  abbrev answer_read : SpiRead → Reply
  answer_read r = answered (
      let bytes = copy_at 0 (take 5 q.payload) (replicate (5 + max_read_size) 0) in
      let bytes = copy_at 5 (as_slice r) bytes in
      prepare_0x21 m q.id 0x90 (take (5 + length (as_slice r)) bytes) s timer)

  flash_answer :
      (r : SpiRead)
      → q.id ≡ 0x10
      → 5 ≤ length q.payload
      → size_of q.payload ≤ 0x1D
      → address_of q.payload + size_of q.payload ≤ 0x80000
      → as_slice r ≡ bytes_from (byte_at m flash) (address_of q.payload) (size_of q.payload)
      → SpiReply (answer_read r)
  flash_answer r h long small within e =
      let bytes = bytes_from (byte_at m flash) (address_of q.payload) (size_of q.payload) in
      let size = length-bytes_from (byte_at m flash) (address_of q.payload) (size_of q.payload) in
      let (reply, e', shape) =
        short_answer m q.id 0x90 (take 5 q.payload ++ bytes) s timer
          (omega (arith, length-head q.payload bytes long, size)) in
      rw (e, read_data q.payload bytes long (omega (arith, size)), e')
        (flash_read h long small within shape)

  spi_read :
      (result : ProtocolResult SpiRead)
      → Answers m flash (address_of q.payload) (size_of q.payload) result
      → q.id ≡ 0x10
      → 5 ≤ length q.payload
      → SpiReply (
          answered (
            result >>= λ r.
            let bytes = copy_at 0 (take 5 q.payload) (replicate (5 + max_read_size) 0) in
            let bytes = copy_at 5 (as_slice r) bytes in
            prepare_0x21 m q.id 0x90 (take (5 + length (as_slice r)) bytes) s timer))
  spi_read (ok r) (small, within, e) h long = flash_answer r h long small within e
  spi_read (err (spi_read_too_large n maximum)) (big, same, limit) h long =
      (h, long, same, limit, rw same big)
  spi_read (err (spi_address_out_of_range a n)) (small, over, e1, e2) h long =
      (h, long, e1, e2, rw e2 small, rw (e1, e2) over)
  spi_read (err _) a h long = absurd a

  pub spi_lem : SpiReply (try_prepare_spi_reply m q s timer flash)
  unfolding try_prepare_spi_reply
  spi_lem =
      by_test SpiReply (q.id == 0x10)
        (λ h.
          by_test SpiReply (ltb (length q.payload) 5)
            (λ small. (ground (arith, h), refl, refl, ground (arith, small)))
            (λ long.
              spi_read (read m flash (address_of q.payload) (size_of q.payload))
                (read-Answers m flash (address_of q.payload) (size_of q.payload))
                (ground (arith, h)) (ground (arith, long))))
        (λ h. h)
