-- ===== src/Protocol/Facade/Outcome.antt =====
-- Which answer each subcommand gets.
pub mod Expected
mod Replies
mod Flash
mod Sessions
use swbt_rs.Base.{
  ℕ, ◌+◌, ◌≤◌, ◌<◌, ◌≡◌, ◌⊎◌, inl, inr, refl, true, false, Option, none, some, [], ◌∷◌, ◌||◌, ◌==◌,
  length, ok, err,
}
use swbt_rs.Model.Spec.{ControllerKind}
use swbt_rs.Input.State.{InputState}
use swbt_rs.Protocol.Error.{
  ProtocolResult, unsupported_subcommand, missing_subcommand_argument, invalid_nfc_ir_mcu_state,
  invalid_vibration_value, unsupported_imu_mode, truncated_spi_read_request, spi_read_too_large,
  spi_address_out_of_range,
}
use swbt_rs.Protocol.OutputReport.{SubcommandRequest}
use swbt_rs.Protocol.Session.{ProtocolSession}
use swbt_rs.Protocol.Subcommand.{PreparedSessionReply, Reply}
use swbt_rs.Protocol.Facade.{
  SwitchHidProtocol, PreparedOutputAction, reply, session_reply, or_next, prepare_subcommand,
}
use swbt_rs.Protocol.Facade.Outcome.Expected.{
  StartsWith, is_stateless, changes_session, address_of, size_of, Replied,
}
use swbt_rs.Protocol.Facade.Outcome.Replies.{Stateless, stateless_lem}
use swbt_rs.Protocol.Facade.Outcome.Flash.{SpiReply, spi_lem}
use swbt_rs.Protocol.Facade.Outcome.Sessions.{RepliedWith, Stateful, stateful_lem}

module _ (p : SwitchHidProtocol) (m : ControllerKind) (q : SubcommandRequest) (state : InputState)
    (timer : ℕ) (s : ProtocolSession) where
  -- The answers of the whole protocol to a subcommand in a session.
  abbrev pub Outcome : ProtocolResult PreparedOutputAction → Type 0
  Outcome (ok (reply r)) = Replied m p.device_info_address p.spi q state timer r
  Outcome (ok (session_reply r)) = RepliedWith m q state timer s r
  Outcome (err (unsupported_subcommand id)) =
      (id ≡ q.id)
      × (is_stateless id ≡ false)
      × ((id == 0x10) ≡ false)
      × (changes_session id ≡ false)
  Outcome (err (missing_subcommand_argument id)) =
      (id ≡ q.id) × (q.payload ≡ []) × ((id ≡ 0x22) ⊎ (changes_session id ≡ true))
  Outcome (err (invalid_nfc_ir_mcu_state v)) = (q.id ≡ 0x22) × (2 < v) × StartsWith q.payload v
  Outcome (err (truncated_spi_read_request minimum actual)) =
      (q.id ≡ 0x10) × (minimum ≡ 5) × (actual ≡ length q.payload) × (actual < 5)
  Outcome (err (spi_read_too_large n maximum)) =
      (q.id ≡ 0x10)
      × (5 ≤ length q.payload)
      × (n ≡ size_of q.payload)
      × (maximum ≡ 0x1D)
      × (0x1D < n)
  Outcome (err (spi_address_out_of_range a n)) =
      (q.id ≡ 0x10)
      × (5 ≤ length q.payload)
      × (a ≡ address_of q.payload)
      × (n ≡ size_of q.payload)
      × (n ≤ 0x1D)
      × (0x80000 < a + n)
  Outcome (err (unsupported_imu_mode v accepted)) =
      (q.id ≡ 0x40) × (5 < v) × StartsWith q.payload v × (accepted ≡ 0 ∷ 1 ∷ 2 ∷ 3 ∷ 4 ∷ 5 ∷ [])
  Outcome (err (invalid_vibration_value v)) = (q.id ≡ 0x48) × (1 < v) × StartsWith q.payload v
  Outcome (err _) = ⊥

  last_stage :
      (r : ProtocolResult (Option PreparedSessionReply))
      → is_stateless q.id ≡ false
      → (q.id == 0x10) ≡ false
      → Stateful m q state timer s r
      → Outcome (or_next r session_reply (err (unsupported_subcommand q.id)))
  last_stage (ok none) h1 h2 a = (refl, h1, h2, a)
  last_stage (ok (some r)) h1 h2 a = a
  last_stage (err (missing_subcommand_argument id)) h1 h2 (h, e, empty) = (e, empty, inr (rw e h))
  last_stage (err (unsupported_imu_mode v accepted)) h1 h2 a = a
  last_stage (err (invalid_vibration_value v)) h1 h2 a = a
  last_stage (err _) h1 h2 a = absurd a

  middle_stage :
      (r : Reply) (rest : ProtocolResult PreparedOutputAction)
      → SpiReply m p.device_info_address p.spi q state timer r
      → ((q.id == 0x10) ≡ false → Outcome rest)
      → Outcome (or_next r reply rest)
  middle_stage (ok none) rest a next = next a
  middle_stage (ok (some r)) rest a next = a
  middle_stage (err (truncated_spi_read_request minimum actual)) rest a next = a
  middle_stage (err (spi_read_too_large size maximum)) rest a next = a
  middle_stage (err (spi_address_out_of_range address size)) rest a next = a
  middle_stage (err _) rest a next = absurd a

  first_stage :
      (r : Reply) (rest : ProtocolResult PreparedOutputAction)
      → Stateless m p.device_info_address p.spi q state timer r
      → (is_stateless q.id ≡ false → Outcome rest)
      → Outcome (or_next r reply rest)
  first_stage (ok none) rest a next = next a
  first_stage (ok (some r)) rest a next = a
  first_stage (err (missing_subcommand_argument id)) rest (e, h, empty) next = (e, empty, inl h)
  first_stage (err (invalid_nfc_ir_mcu_state v)) rest a next = a
  first_stage (err _) rest a next = absurd a

-- Every subcommand is answered as follows, in every session and state, and by no other error. The six
-- that leave the session answer with the acknowledgement and the data of their identifier: the device
-- information with the address, the trigger times, nothing, the MCU configuration, nothing for an MCU
-- state of at most 2, and for a read of at most 29 bytes that ends at or below 0x80000 the request and
-- the bytes of the flash. The four others answer without data and with a session that differs in one
-- part, which is what the first payload byte asks for: any report mode, any lights, an IMU mode of at
-- most 5, with a fresh encoding state, or vibration by 0 or 1. A missing argument, an argument that is
-- out of its range, a read request that is too short, too large or out of range, and any other
-- subcommand are refused with the error that names it. Of an address with fewer than six bytes the
-- missing ones count as zeros.
pub prepare_subcommand-Outcome :
    (p : SwitchHidProtocol) (m : ControllerKind) (q : SubcommandRequest) (state : InputState)
    (timer : ℕ) (s : ProtocolSession)
    → Outcome p m q state timer s (prepare_subcommand p m q state timer s)
unfolding prepare_subcommand
prepare_subcommand-Outcome p m q state timer s =
    first_stage p m q state timer s _ _ (stateless_lem m p.device_info_address p.spi q state timer)
      λ h1.
        middle_stage p m q state timer s _ _ (spi_lem m p.device_info_address p.spi q state timer)
          λ h2. last_stage p m q state timer s _ h1 h2 (stateful_lem m q state timer s)
