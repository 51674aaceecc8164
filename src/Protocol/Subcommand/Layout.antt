-- ===== src/Protocol/Subcommand/Layout.antt =====
-- The bytes of a subcommand reply.
use swbt_rs.Base.{
  ◌⊎◌, ltb→lt, ℕ, zero, suc, ◌+◌, ◌-◌, ◌%◌, ◌≤◌, ◌<◌, ◌≡◌, refl, ap, ◌∙◌, List, [], ◌∷◌, arith, ltb,
  leb, ◌==◌, ◌&&◌, if◌then◌else◌, length, get_or, set, take, replicate, copy_at, length-set,
  get_or-set, length-take, length-copy_at, get_or-copy_at, get_or-replicate, Bool-cases, inl, inr,
  true, false, ok, err,
}
use swbt_rs.Model.Spec.{ControllerKind}
use swbt_rs.Input.State.{InputState}
use swbt_rs.Protocol.Error.{subcommand_reply_data_too_large}
use swbt_rs.Protocol.InputReport.{encode_0x30}
use swbt_rs.Protocol.InputReport.Report.{length-encode}
use swbt_rs.Protocol.Subcommand.{PreparedSubcommandReply, prepare_0x21}

get_or-take : (n : ℕ) (xs : List ℕ) (j d : ℕ) → j < n → get_or (take n xs) j d ≡ get_or xs j d
get_or-take zero xs j d h = absurd (omega arith)
get_or-take (suc n) [] j d h = refl
get_or-take (suc n) (x ∷ xs) zero d h = refl
get_or-take (suc n) (x ∷ xs) (suc j) d h = get_or-take n xs j d (omega arith)

zero_leb : (j : ℕ) → leb 0 j ≡ true
zero_leb j = ground arith

no_shift : (xs : List ℕ) (j : ℕ) → get_or xs (j - 0) 0 ≡ get_or xs j 0
no_shift xs j = ap (λ (n : ℕ). get_or xs n 0) (omega arith)

short : (n : ℕ) → n ≤ 35 → ltb 35 n ≡ false
short n h = ground arith

lt→ltb : (a b : ℕ) → a < b → ltb a b ≡ true
lt→ltb a b h = ground arith

-- The reply carries the state as an input report does, and then acknowledgement, subcommand, data
-- and zeros.
pub record IsReply (m : ControllerKind) (id ack : ℕ) (payload : List ℕ) (s : InputState) (timer : ℕ)
    (r : PreparedSubcommandReply) : Type 0 where
  pub size : length r.bytes ≡ 50
  pub report_id : get_or r.bytes 0 0 ≡ 0x21
  pub state :
      (j : ℕ)
      → j < 12
      → get_or r.bytes (1 + j) 0 ≡ get_or (encode_0x30 m s timer (replicate 36 0)).bytes (1 + j) 0
  pub ack_byte : get_or r.bytes 13 0 ≡ ack
  pub id_byte : get_or r.bytes 14 0 ≡ id
  pub payload_bytes : (j : ℕ) → j < length payload → get_or r.bytes (15 + j) 0 ≡ get_or payload j 0
  pub padding : (j : ℕ) → 15 + length payload ≤ j → get_or r.bytes j 0 ≡ 0
  pub timer_after : r.next_timer ≡ (timer + 1) % 256

-- The bytes of a reply, by the bytes of the input report and the data.
abbrev reply_bytes : List ℕ → List ℕ → ℕ → ℕ → List ℕ
reply_bytes input payload id ack =
    copy_at 15 payload
      (set (set (set (copy_at 0 (take 13 input) (replicate 50 0)) 0 0x21) 13 ack) 14 id)

module _ (input payload : List ℕ) (id ack : ℕ) (size : length input ≡ 49)
    (fits : length payload ≤ 35) where
  abbrev part0 : List ℕ
  part0 = copy_at 0 (take 13 input) (replicate 50 0)

  abbrev part1 : List ℕ
  part1 = set part0 0 0x21

  abbrev part2 : List ℕ
  part2 = set part1 13 ack

  abbrev part3 : List ℕ
  part3 = set part2 14 id

  size0 : length part0 ≡ 50
  size0 = length-copy_at 0 (take 13 input) (replicate 50 0)

  size1 : length part1 ≡ 50
  size1 = length-set part0 0 0x21 ∙ size0

  size2 : length part2 ≡ 50
  size2 = length-set part1 13 ack ∙ size1

  size3 : length part3 ≡ 50
  size3 = length-set part2 14 id ∙ size2

  front_size : length (take 13 input) ≡ 13
  front_size = length-take 13 input ∙ omega (arith, size)

  front_byte : (j : ℕ) → get_or part0 j 0 ≡ (if ltb j 13 then get_or input j 0 else 0)
  front_byte j = elim (Bool-cases (ltb j 13)) [
    | inl e ↦
        get_or-copy_at 0 (take 13 input) (replicate 50 0) j 0 (omega (arith, front_size))
        ∙ rw (front_size, zero_leb j, e)
            (get_or-take 13 input (j - 0) 0 (ground arith) ∙ no_shift input j)
    | inr e ↦
        get_or-copy_at 0 (take 13 input) (replicate 50 0) j 0 (omega (arith, front_size))
        ∙ rw (front_size, zero_leb j, e) (get_or-replicate 50 j 0)
  ]

  byte_lem :
      (j : ℕ)
      → get_or (reply_bytes input payload id ack) j 0 ≡ (
          if leb 15 j && ltb j (15 + length payload)
          then get_or payload (j - 15) 0
          else if 14 == j
          then id
          else if 13 == j
          then ack
          else if 0 == j
          then 0x21
          else get_or part0 j 0)
  byte_lem j = ground (
    arith,
    get_or-copy_at 15 payload part3 j 0,
    get_or-set part2 14 j id 0,
    get_or-set part1 13 j ack 0,
    get_or-set part0 0 j 0x21 0,
    size0,
    size1,
    size2,
    size3,
  )

  reply_size_lem : length (reply_bytes input payload id ack) ≡ 50
  reply_size_lem = length-copy_at 15 payload part3 ∙ size3

  state_bytes :
      (j : ℕ)
      → j < 12
      → get_or (reply_bytes input payload id ack) (1 + j) 0 ≡ get_or input (1 + j) 0
  state_bytes j h = byte_lem (1 + j) ∙ ground (arith, front_byte (1 + j))

  payload_lem :
      (j : ℕ)
      → j < length payload
      → get_or (reply_bytes input payload id ack) (15 + j) 0 ≡ get_or payload j 0
  payload_lem j h =
      byte_lem (15 + j)
      ∙ ground
          (arith, ap (λ (n : ℕ). get_or payload n 0) (let e : 15 + j - 15 ≡ j = omega arith in e))

  padding_lem :
      (j : ℕ) → 15 + length payload ≤ j → get_or (reply_bytes input payload id ack) j 0 ≡ 0
  padding_lem j h = byte_lem j ∙ ground (arith, front_byte j)

pub prepare_0x21_cases :
    (m : ControllerKind) (id ack : ℕ) (payload : List ℕ) (s : InputState) (timer : ℕ)
    → (length payload ≤ 35
        → (r : PreparedSubcommandReply) × (prepare_0x21 m id ack payload s timer ≡ ok r)
          × IsReply m id ack payload s timer r)
      × (35 < length payload
          → prepare_0x21 m id ack payload s timer
            ≡ err (subcommand_reply_data_too_large (length payload) 35))
prepare_0x21_cases m id ack payload s timer = (
  λ h. (
    record {
      bytes = reply_bytes (encode_0x30 m s timer (replicate 36 0)).bytes payload id ack;
      next_timer = (encode_0x30 m s timer (replicate 36 0)).next_timer;
    },
    accepted h,
    record {
      size = reply_size_lem _ payload id ack input_size h;
      report_id = byte_lem _ payload id ack input_size h 0;
      state = state_bytes _ payload id ack input_size h;
      ack_byte = byte_lem _ payload id ack input_size h 13;
      id_byte = byte_lem _ payload id ack input_size h 14;
      payload_bytes = payload_lem _ payload id ack input_size h;
      padding = padding_lem _ payload id ack input_size h;
      timer_after = unfold encode_0x30 in refl;
    },
  ),
  refused,
)
  where
    input_size : length (encode_0x30 m s timer (replicate 36 0)).bytes ≡ 49
    input_size = length-encode m s timer (replicate 36 0) refl

    accepted :
        length payload ≤ 35
        → prepare_0x21 m id ack payload s timer
          ≡ ok (record {
            bytes = reply_bytes (encode_0x30 m s timer (replicate 36 0)).bytes payload id ack;
            next_timer = (encode_0x30 m s timer (replicate 36 0)).next_timer;
          })
    accepted h = unfold prepare_0x21 in rw (short (length payload) h)

    refused :
        35 < length payload
        → prepare_0x21 m id ack payload s timer
          ≡ err (subcommand_reply_data_too_large (length payload) 35)
    refused h = unfold prepare_0x21 in rw (lt→ltb 35 (length payload) h)

-- For every model, state, timer, subcommand and acknowledgement, data of at most 35 bytes are
-- answered with a reply of 50 bytes: the identifier 0x21, the twelve bytes after it as in an input
-- report of the same state and timer, the acknowledgement, the subcommand, the data, and zeros to the
-- end, with the timer after it plus one modulo 256; larger data are refused with their size.
pub prepare_0x21-IsReply :
    (m : ControllerKind) (id ack : ℕ) (payload : List ℕ) (s : InputState) (timer : ℕ)
    → ((length payload ≤ 35)
        × (r : PreparedSubcommandReply) × (prepare_0x21 m id ack payload s timer ≡ ok r)
        × IsReply m id ack payload s timer r)
      ⊎ ((35 < length payload)
          × (prepare_0x21 m id ack payload s timer
              ≡ err (subcommand_reply_data_too_large (length payload) 35)))
prepare_0x21-IsReply m id ack payload s timer = elim (Bool-cases (ltb 35 (length payload))) [
  | inl e ↦
      let h = ltb→lt 35 (length payload) e in
      inr (h, (prepare_0x21_cases m id ack payload s timer).1 h)
  | inr e ↦
      let h : length payload ≤ 35 = ground arith in
      let (r, e', shape) = (prepare_0x21_cases m id ack payload s timer).0 h in
      inl (h, r, e', shape)
]
