-- ===== src/Protocol/Facade/Outcome/Expected.antt =====
-- What the answers to the subcommands hold, written out.
use swbt_rs.Base.{
  ℕ, ◌+◌, ◌*◌, ◌≤◌, ◌≡◌, Bool, ◌||◌, some, List, [], ◌∷◌, ◌++◌, ◌==◌, if◌then◌else◌, length, get_or,
  take, replicate,
}
use swbt_rs.Model.Spec.{ControllerKind}
use swbt_rs.Input.State.{InputState}
use swbt_rs.Protocol.OutputReport.{SubcommandRequest}
use swbt_rs.Protocol.Session.{ProtocolSession, standard_full, unsupported}
use swbt_rs.Protocol.Imu.{
  ImuMode, disabled, standard, quaternion1, quaternion2, quaternion3, quaternion4, default_state,
}
use swbt_rs.Protocol.Spi.{VirtualSpiFlash, byte_at}
use swbt_rs.Protocol.Spi.Reads.{bytes_from}
use swbt_rs.Protocol.Subcommand.{PreparedSubcommandReply}
use swbt_rs.Protocol.Subcommand.Layout.{IsReply}

-- A first argument byte.
abbrev pub StartsWith : List ℕ → ℕ → Type 0
StartsWith payload v = (rest : List ℕ) × (payload ≡ v ∷ rest)

abbrev pub is_stateless : ℕ → Bool
is_stateless id = id == 0x02 || (id == 0x04 || (id == 0x08 || (id == 0x21 || id == 0x22)))

abbrev pub changes_session : ℕ → Bool
changes_session id = id == 0x03 || (id == 0x30 || (id == 0x40 || id == 0x48))

abbrev pub type_of : ControllerKind → ℕ
type_of ControllerKind.pro = 3
type_of ControllerKind.joycon_l = 1
type_of ControllerKind.joycon_r = 2

abbrev pub tail_of : ControllerKind → List ℕ
tail_of ControllerKind.pro = 3 ∷ 2 ∷ []
tail_of ControllerKind.joycon_l = 1 ∷ 1 ∷ []
tail_of ControllerKind.joycon_r = 1 ∷ 1 ∷ []

-- Version 4.0, the type of the controller, the six bytes of the address, and the tail.
abbrev pub info : ControllerKind → List ℕ → List ℕ
info m address =
    4
    ∷ 0
    ∷ type_of m
    ∷ 2
    ∷ get_or address 0 0
    ∷ get_or address 1 0
    ∷ get_or address 2 0
    ∷ get_or address 3 0
    ∷ get_or address 4 0
    ∷ get_or address 5 0
    ∷ tail_of m

-- 300 ticks, in two bytes, for L and R of a Pro Controller and for SL and SR of a Joy-Con.
abbrev pub ticks : ControllerKind → List ℕ
ticks ControllerKind.pro = 44 ∷ 1 ∷ 44 ∷ 1 ∷ replicate 10 0
ticks ControllerKind.joycon_l = replicate 8 0 ++ (44 ∷ 1 ∷ 44 ∷ 1 ∷ 0 ∷ 0 ∷ [])
ticks ControllerKind.joycon_r = replicate 8 0 ++ (44 ∷ 1 ∷ 44 ∷ 1 ∷ 0 ∷ 0 ∷ [])

abbrev pub mcu_data : List ℕ
mcu_data = 1 ∷ 0 ∷ 255 ∷ 0 ∷ 8 ∷ 0 ∷ 27 ∷ 1 ∷ (replicate 25 0 ++ (200 ∷ []))

-- The address and the size that a read of the flash asks for.
abbrev pub address_of : List ℕ → ℕ
address_of payload =
    get_or payload 0 0
    + 256 * get_or payload 1 0
    + 65_536 * get_or payload 2 0
    + 16_777_216 * get_or payload 3 0

abbrev pub size_of : List ℕ → ℕ
size_of payload = get_or payload 4 0

-- The replies that leave the session as it is: acknowledgement and data by the subcommand.
pub data Replied (m : ControllerKind) (address : List ℕ) (flash : VirtualSpiFlash)
    (q : SubcommandRequest) (state : InputState) (timer : ℕ) (r : PreparedSubcommandReply)
    : Type 0 where
  device_info :
      q.id ≡ 0x02
      → IsReply m q.id 0x82 (info m address) state timer r
      → Replied m address flash q state timer r
  trigger_elapsed :
      q.id ≡ 0x04
      → IsReply m q.id 0x83 (ticks m) state timer r
      → Replied m address flash q state timer r
  shipment :
      q.id ≡ 0x08 → IsReply m q.id 0x80 [] state timer r → Replied m address flash q state timer r
  mcu_config :
      q.id ≡ 0x21
      → IsReply m q.id 0xA0 mcu_data state timer r
      → Replied m address flash q state timer r
  mcu_state :
      {v : ℕ}
      → q.id ≡ 0x22
      → StartsWith q.payload v
      → v ≤ 2
      → IsReply m q.id 0x80 [] state timer r
      → Replied m address flash q state timer r
  flash_read :
      q.id ≡ 0x10
      → 5 ≤ length q.payload
      → size_of q.payload ≤ 0x1D
      → address_of q.payload + size_of q.payload ≤ 0x80000
      → IsReply m q.id 0x90
          (take 5 q.payload
            ++ bytes_from (byte_at m flash) (address_of q.payload) (size_of q.payload))
          state
          timer
          r
      → Replied m address flash q state timer r

abbrev pub mode_at : ℕ → ImuMode
mode_at v =
    if v == 0
    then disabled
    else if v == 1
    then standard
    else if v == 2
    then quaternion1
    else if v == 3
    then quaternion2
    else if v == 4
    then quaternion3
    else quaternion4

-- The session that a byte asks for.
pub data NextSession (id v : ℕ) (s next : ProtocolSession) : Type 0 where
  report_mode :
      id ≡ 0x03
      → next ≡ record s { mode = some (if v == 0x30 then standard_full else unsupported v) }
      → NextSession id v s next
  player_lights : id ≡ 0x30 → next ≡ record s { lights = some v } → NextSession id v s next
  imu :
      id ≡ 0x40
      → v ≤ 5
      → next ≡ record s { imu_mode = mode_at v; imu_encoding_state = default_state }
      → NextSession id v s next
  vibration :
      id ≡ 0x48 → v ≤ 1 → next ≡ record s { vibration_enabled = v == 1 } → NextSession id v s next
