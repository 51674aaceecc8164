-- ===== src/Protocol/Facade/Outcome/Replies.antt =====
-- What a stateless subcommand may answer.
use swbt_rs.Base.{
  ℕ, ◌≤◌, ◌<◌, ◌≡◌, ◌⊎◌, inl, inr, refl, false, by_test, none, some, List, [], ◌∷◌, arith, leb,
  ◌==◌, if◌then◌else◌, length, get_or, copy_at, replicate, ok, err, ◌>>=◌,
}
use swbt_rs.Model.Spec.{ControllerKind, protocol, protocol_spec}
use swbt_rs.Input.State.{InputState}
use swbt_rs.Protocol.Error.{ProtocolResult, missing_subcommand_argument, invalid_nfc_ir_mcu_state}
use swbt_rs.Protocol.OutputReport.{SubcommandRequest}
use swbt_rs.Protocol.Spi.{VirtualSpiFlash}
use swbt_rs.Protocol.Subcommand.{
  PreparedSubcommandReply, prepare_0x21, device_info_data, trigger_elapsed_data, put_ticks,
  trigger_elapsed_offset, answered, Reply, first_argument, try_prepare_stateless_reply,
}
use swbt_rs.Protocol.Subcommand.Layout.{IsReply, prepare_0x21_cases}
use swbt_rs.Protocol.Facade.Outcome.Expected.{
  StartsWith, is_stateless, info, ticks, mcu_data, Replied, device_info, trigger_elapsed, shipment,
  mcu_config, mcu_state,
}

pub short_answer :
    (m : ControllerKind) (id ack : ℕ) (payload : List ℕ) (s : InputState) (timer : ℕ)
    → length payload ≤ 35
    → (r : PreparedSubcommandReply) × (prepare_0x21 m id ack payload s timer ≡ ok r)
      × IsReply m id ack payload s timer r
short_answer m id ack payload s timer h = (prepare_0x21_cases m id ack payload s timer).0 h

-- The address is put between the first four bytes and the tail.
abbrev put_info : ℕ → ℕ → ℕ → List ℕ → List ℕ
put_info type x y address =
    copy_at 10 (x ∷ y ∷ []) (copy_at 4 address (4 ∷ 0 ∷ type ∷ 2 ∷ replicate 8 0))

put_info_lem :
    (type x y : ℕ) (address : List ℕ)
    → put_info type x y address
      ≡ 4
        ∷ 0
        ∷ type
        ∷ 2
        ∷ get_or address 0 0
        ∷ get_or address 1 0
        ∷ get_or address 2 0
        ∷ get_or address 3 0
        ∷ get_or address 4 0
        ∷ get_or address 5 0
        ∷ x
        ∷ y
        ∷ []
put_info_lem type x y [] = refl
put_info_lem type x y (a ∷ []) = refl
put_info_lem type x y (a ∷ b ∷ []) = refl
put_info_lem type x y (a ∷ b ∷ c ∷ []) = refl
put_info_lem type x y (a ∷ b ∷ c ∷ d ∷ []) = refl
put_info_lem type x y (a ∷ b ∷ c ∷ d ∷ e ∷ []) = refl
put_info_lem type x y (a ∷ b ∷ c ∷ d ∷ e ∷ g ∷ []) = refl
put_info_lem type x y (a ∷ b ∷ c ∷ d ∷ e ∷ g ∷ h ∷ []) = refl
put_info_lem type x y (a ∷ b ∷ c ∷ d ∷ e ∷ g ∷ h ∷ i ∷ rest) = refl

info_lem : (m : ControllerKind) (address : List ℕ) → device_info_data m address ≡ info m address
unfolding device_info_data protocol protocol_spec
info_lem ControllerKind.pro address = put_info_lem 3 3 2 address
info_lem ControllerKind.joycon_l address = put_info_lem 1 1 1 address
info_lem ControllerKind.joycon_r address = put_info_lem 2 1 1 address

info_size : (m : ControllerKind) (address : List ℕ) → length (info m address) ≤ 35
info_size ControllerKind.pro address = omega arith
info_size ControllerKind.joycon_l address = omega arith
info_size ControllerKind.joycon_r address = omega arith

ticks_lem : (m : ControllerKind) → trigger_elapsed_data m ≡ ok (ticks m)
unfolding trigger_elapsed_data put_ticks trigger_elapsed_offset protocol protocol_spec
ticks_lem ControllerKind.pro = refl
ticks_lem ControllerKind.joycon_l = refl
ticks_lem ControllerKind.joycon_r = refl

ticks_size : (m : ControllerKind) → length (ticks m) ≤ 35
ticks_size ControllerKind.pro = omega arith
ticks_size ControllerKind.joycon_l = omega arith
ticks_size ControllerKind.joycon_r = omega arith

pub first_cases :
    (id : ℕ) (payload : List ℕ)
    → ((payload ≡ []) × (first_argument id payload ≡ err (missing_subcommand_argument id)))
      ⊎ ((v : ℕ) × StartsWith payload v × (first_argument id payload ≡ ok v))
unfolding first_argument
first_cases id [] = inl (refl, refl)
first_cases id (v ∷ rest) = inr (v, (rest, refl), refl)

-- What the stateless subcommands may answer.
module _ (m : ControllerKind) (address : List ℕ) (flash : VirtualSpiFlash) (q : SubcommandRequest)
    (s : InputState) (timer : ℕ) where
  abbrev pub Stateless : Reply → Type 0
  Stateless (ok none) = is_stateless q.id ≡ false
  Stateless (ok (some r)) = Replied m address flash q s timer r
  Stateless (err (missing_subcommand_argument id)) = (id ≡ q.id) × (id ≡ 0x22) × (q.payload ≡ [])
  Stateless (err (invalid_nfc_ir_mcu_state v)) = (q.id ≡ 0x22) × (2 < v) × StartsWith q.payload v
  Stateless (err _) = ⊥

  answer :
      (ack : ℕ) (data_bytes : List ℕ)
      → length data_bytes ≤ 35
      → ((r : PreparedSubcommandReply)
          → IsReply m q.id ack data_bytes s timer r
          → Replied m address flash q s timer r)
      → Stateless (answered (prepare_0x21 m q.id ack data_bytes s timer))
  answer ack data_bytes fits wrap =
      let (r, e, shape) = short_answer m q.id ack data_bytes s timer fits in rw e (wrap r shape)

  nfc_lem :
      q.id ≡ 0x22
      → Stateless (
          answered (
            first_argument q.id q.payload >>= λ requested.
            if leb requested 0x02
            then prepare_0x21 m q.id 0x80 [] s timer
            else err (invalid_nfc_ir_mcu_state requested)))
  nfc_lem h = elim (first_cases q.id q.payload) [
    | inl (empty, e) ↦ rw e (refl, h, empty)
    | inr (v, start, e) ↦ rw e (
        by_test (λ (r : ProtocolResult PreparedSubcommandReply). Stateless (answered r))
          (leb v 0x02)
          (λ small.
            answer 0x80 [] (omega arith) λ r shape. mcu_state h start (ground (arith, small)) shape)
          (λ large. (h, ground (arith, large), start)))
  ]

  pub stateless_lem : Stateless (try_prepare_stateless_reply m q s timer address)
  unfolding try_prepare_stateless_reply
  stateless_lem =
      by_test Stateless (q.id == 0x02)
        (λ h. rw (info_lem m address) (
          answer 0x82 (info m address) (info_size m address)
            λ r shape. device_info (ground (arith, h)) shape))
        λ n1.
          by_test Stateless (q.id == 0x04)
            (λ h. rw (ticks_lem m) (
              answer 0x83 (ticks m) (ticks_size m)
                λ r shape. trigger_elapsed (ground (arith, h)) shape))
            λ n2.
              by_test Stateless (q.id == 0x08)
                (λ h. answer 0x80 [] (omega arith) λ r shape. shipment (ground (arith, h)) shape)
                λ n3.
                  by_test Stateless (q.id == 0x21)
                    (λ h.
                      answer 0xA0 mcu_data (omega arith)
                        λ r shape. mcu_config (ground (arith, h)) shape)
                    λ n4.
                      by_test Stateless (q.id == 0x22) (λ h. nfc_lem (ground (arith, h)))
                        λ n5. ground arith
