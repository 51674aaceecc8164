-- ===== src/Protocol/Subcommand.antt =====
-- crates/swbt-core/src/protocol/subcommand.rs: the replies to subcommands.
pub mod Layout
use swbt_rs.Base.{
  ℕ, ◌+◌, ◌*◌, ◌/◌, ◌%◌, ◌^◌, Bool, true, false, ◌||◌, Option, none, some, List, [], ◌∷◌, ◌++◌, ltb,
  leb, ◌==◌, any, if◌then◌else◌, length, get_or, set, take, replicate, copy_at, Result, ok, err,
  ◌>>=◌,
}
use swbt_rs.Model.Button.{ButtonKind}
use swbt_rs.Model.Spec.{ControllerKind, protocol}
use swbt_rs.Input.State.{InputState}
use swbt_rs.Protocol.Error.{
  ProtocolError, ProtocolResult, subcommand_reply_data_too_large,
  unsupported_trigger_elapsed_button, truncated_spi_read_request, missing_subcommand_argument,
  unsupported_imu_mode, invalid_vibration_value, invalid_nfc_ir_mcu_state,
}
use swbt_rs.Protocol.Imu.{ImuMode, from_wire}
use swbt_rs.Protocol.InputReport.{encode_0x30}
use swbt_rs.Protocol.OutputReport.{SubcommandRequest}
use swbt_rs.Protocol.Session.{
  ProtocolSession, with_report_mode, with_player_lights, with_imu_mode, with_vibration_enabled,
}
use swbt_rs.Protocol.Spi.{VirtualSpiFlash, read, as_slice, max_read_size}

abbrev pub reply_size : ℕ
reply_size = 50

abbrev pub reply_data_size : ℕ
reply_data_size = 35

pub record PreparedSubcommandReply : Type 0 where
  pub bytes : List ℕ
  pub next_timer : ℕ

pub record PreparedSessionReply : Type 0 where
  pub reply : PreparedSubcommandReply
  pub next_session : ProtocolSession

-- MCU_CONFIG_DATA, 34 bytes.
abbrev pub mcu_config_data : List ℕ
mcu_config_data =
    0x01 ∷ 0x00 ∷ 0xFF ∷ 0x00 ∷ 0x08 ∷ 0x00 ∷ 0x1B ∷ 0x01 ∷ (replicate 25 0x00 ++ (0xC8 ∷ []))

unfoldable pub prepare_0x21 :
    ControllerKind → ℕ → ℕ → List ℕ → InputState → ℕ → ProtocolResult PreparedSubcommandReply
prepare_0x21 m subcommand_id ack payload state timer =
    if ltb reply_data_size (length payload)
    then err (subcommand_reply_data_too_large (length payload) reply_data_size)
    else (let input = encode_0x30 m state timer (replicate 36 0) in
        let bytes = copy_at 0 (take 13 input.bytes) (replicate reply_size 0) in
        let bytes = set bytes 0 0x21 in
        let bytes = set bytes 13 ack in
        let bytes = set bytes 14 subcommand_id in
        ok (record { bytes = copy_at 15 payload bytes; next_timer = input.next_timer }))

unfoldable pub device_info_data : ControllerKind → List ℕ → List ℕ
device_info_data m address =
    let bytes = copy_at 0 (0x04 ∷ 0x00 ∷ []) (replicate 12 0) in
    let bytes = set bytes 2 (protocol m).device_type in
    let bytes = set bytes 3 0x02 in
    let bytes = copy_at 4 address bytes in copy_at 10 (protocol m).device_info_tail bytes

unfoldable pub trigger_elapsed_offset : ButtonKind → Option ℕ
trigger_elapsed_offset ButtonKind.l = some 0
trigger_elapsed_offset ButtonKind.r = some 2
trigger_elapsed_offset ButtonKind.zl = some 4
trigger_elapsed_offset ButtonKind.zr = some 6
trigger_elapsed_offset ButtonKind.sl = some 8
trigger_elapsed_offset ButtonKind.sr = some 10
trigger_elapsed_offset ButtonKind.home = some 12
trigger_elapsed_offset _ = none

-- `300_u16.to_le_bytes()`
abbrev pub trigger_elapsed_ticks : List ℕ
trigger_elapsed_ticks = 300 % 256 ∷ 300 / 256 ∷ []

abbrev or_error {ℓ} : {A : Type ℓ} → Option A → ProtocolError → ProtocolResult A
or_error (some value) e = ok value
or_error none e = err e

-- The loop over the pairing buttons that are left.
unfoldable pub put_ticks : List ButtonKind → List ℕ → ProtocolResult (List ℕ)
unfolding trigger_elapsed_offset
put_ticks [] bytes = ok bytes
put_ticks (button ∷ rest) bytes =
    or_error (trigger_elapsed_offset button) (unsupported_trigger_elapsed_button button)
    >>= λ offset. put_ticks rest (copy_at offset trigger_elapsed_ticks bytes)

unfoldable pub trigger_elapsed_data : ControllerKind → ProtocolResult (List ℕ)
unfolding put_ticks
trigger_elapsed_data m = put_ticks (protocol m).pairing_trigger_buttons (replicate 14 0)

-- `request.payload().first().copied().ok_or(...)`
unfoldable pub first_argument : ℕ → List ℕ → ProtocolResult ℕ
first_argument id [] = err (missing_subcommand_argument id)
first_argument id (requested ∷ _) = ok requested

abbrev pub Reply : Type 0
Reply = ProtocolResult (Option PreparedSubcommandReply)

abbrev pub answered : ProtocolResult PreparedSubcommandReply → Reply
answered (ok reply) = ok (some reply)
answered (err e) = err e

-- The timer and the state come last; `address` is the device-info Bluetooth address.
unfoldable pub try_prepare_stateless_reply :
    ControllerKind → SubcommandRequest → InputState → ℕ → List ℕ → Reply
try_prepare_stateless_reply m request state timer address =
    if request.id == 0x02
    then answered (prepare_0x21 m request.id 0x82 (device_info_data m address) state timer)
    else if request.id == 0x04
    then answered
        (trigger_elapsed_data m >>= λ ticks. prepare_0x21 m request.id 0x83 ticks state timer)
    else if request.id == 0x08
    then answered (prepare_0x21 m request.id 0x80 [] state timer)
    else if request.id == 0x21
    then answered (prepare_0x21 m request.id 0xA0 mcu_config_data state timer)
    else if request.id == 0x22
    then answered (
        first_argument request.id request.payload >>= λ requested.
        if leb requested 0x02
        then prepare_0x21 m request.id 0x80 [] state timer
        else err (invalid_nfc_ir_mcu_state requested))
    else ok none

-- `u32::from_le_bytes` of the first four bytes.
abbrev pub from_le32 : List ℕ → ℕ
from_le32 bytes =
    get_or bytes 0 0
    + 2 ^ 8 * get_or bytes 1 0
    + 2 ^ 16 * get_or bytes 2 0
    + 2 ^ 24 * get_or bytes 3 0

unfoldable pub try_prepare_spi_reply :
    ControllerKind → SubcommandRequest → InputState → ℕ → VirtualSpiFlash → Reply
try_prepare_spi_reply m request state timer spi =
    if request.id == 0x10
    then (if ltb (length request.payload) 5
        then err (truncated_spi_read_request 5 (length request.payload))
        else answered (
            read m spi (from_le32 request.payload) (get_or request.payload 4 0) >>= λ result.
            let bytes = copy_at 0 (take 5 request.payload) (replicate (5 + max_read_size) 0) in
            let bytes = copy_at 5 (as_slice result) bytes in
            prepare_0x21 m request.id 0x90 (take (5 + length (as_slice result)) bytes) state timer))
    else ok none

-- `accepted.contains(&requested)`, then `ImuMode::from_wire`.
unfoldable pub accepted_mode : ControllerKind → ℕ → ProtocolResult ImuMode
unfolding from_wire
accepted_mode m requested =
    let accepted = (protocol m).accepted_imu_modes in
    or_error (if any (λ mode. mode == requested) accepted then from_wire requested else none)
      (unsupported_imu_mode requested accepted)

-- The session that the request asks for, for one of the four stateful subcommands.
unfoldable pub next_session_of :
    ControllerKind → ℕ → ℕ → ProtocolSession → ProtocolResult ProtocolSession
next_session_of m subcommand_id requested current =
    if subcommand_id == 0x03
    then ok (with_report_mode current requested)
    else if subcommand_id == 0x30
    then ok (with_player_lights current requested)
    else if subcommand_id == 0x40
    then (accepted_mode m requested >>= λ mode. ok (with_imu_mode current mode))
    else if requested == 0x00
    then ok (with_vibration_enabled current false)
    else if requested == 0x01
    then ok (with_vibration_enabled current true)
    else err (invalid_vibration_value requested)

unfoldable pub is_stateful : ℕ → Bool
is_stateful id = id == 0x03 || (id == 0x30 || (id == 0x40 || id == 0x48))

unfoldable pub try_prepare_stateful_reply :
    ControllerKind
    → SubcommandRequest
    → InputState
    → ℕ
    → ProtocolSession
    → ProtocolResult (Option PreparedSessionReply)
try_prepare_stateful_reply m request state timer current =
    if is_stateful request.id
    then (first_argument request.id request.payload >>= λ requested.
        next_session_of m request.id requested current >>= λ next.
        prepare_0x21 m request.id 0x80 [] state timer >>= λ reply.
        ok (some (record { reply = reply; next_session = next })))
    else ok none
