-- ===== src/Protocol/OutputReport.antt =====
-- crates/swbt-core/src/protocol/output_report.rs: parsing of host-to-device reports. A `u8` is a
-- number below 256; the length checks stand in front of every index, so the default of `get_or`
-- is never read.
pub mod Laws
use swbt_rs.Base.{
  ℕ, Option, none, some, List, [], ◌∷◌, ltb, ◌==◌, if◌then◌else◌, length, get_or, take, drop, ok,
  err, ◌>>=◌, ◌>>◌,
}
use swbt_rs.Protocol.Error.{
  ProtocolResult, output_report_empty, unsupported_output_report, truncated_output_report,
}

abbrev pub subcommand_report_id : ℕ
subcommand_report_id = 0x01

abbrev pub rumble_report_id : ℕ
rumble_report_id = 0x10

abbrev pub rumble_size : ℕ
rumble_size = 8

abbrev pub subcommand_minimum_size : ℕ
subcommand_minimum_size = 11

abbrev pub rumble_minimum_size : ℕ
rumble_minimum_size = 10

-- The eight bytes of `RawRumble`.
abbrev pub RawRumble : Type 0
RawRumble = List ℕ

pub record SubcommandRequest : Type 0 where
  pub id : ℕ
  pub payload : List ℕ

pub data OutputReport : Type 0 where
  -- packet_id, rumble, request
  subcommand : ℕ → RawRumble → SubcommandRequest → OutputReport
  -- packet_id, rumble
  rumble_only : ℕ → RawRumble → OutputReport

unfoldable pub report_id : OutputReport → ℕ
report_id (subcommand _ _ _) = subcommand_report_id
report_id (rumble_only _ _) = rumble_report_id

unfoldable pub packet_id : OutputReport → ℕ
packet_id (subcommand packet _ _) = packet
packet_id (rumble_only packet _) = packet

unfoldable pub rumble : OutputReport → RawRumble
rumble (subcommand _ bytes _) = bytes
rumble (rumble_only _ bytes) = bytes

unfoldable pub request_of : OutputReport → Option SubcommandRequest
request_of (subcommand _ _ request) = some request
request_of (rumble_only _ _) = none

unfoldable pub require_length : List ℕ → ℕ → ℕ → ProtocolResult (Unit {0})
require_length raw id minimum =
    if ltb (length raw) minimum
    then err (truncated_output_report id minimum (length raw))
    else ok tt

-- `rumble.copy_from_slice(&raw[2..10])`
unfoldable pub copy_rumble : List ℕ → RawRumble
copy_rumble raw = take rumble_size (drop 2 raw)

unfoldable pub parse_subcommand_report : List ℕ → ProtocolResult OutputReport
unfolding require_length copy_rumble
parse_subcommand_report raw = do
  require_length raw subcommand_report_id subcommand_minimum_size
  ok (
      subcommand (get_or raw 1 0) (copy_rumble raw)
        (record { id = get_or raw 10 0; payload = drop 11 raw }))

unfoldable pub parse_rumble_report : List ℕ → ProtocolResult OutputReport
unfolding require_length copy_rumble
parse_rumble_report raw = do
  require_length raw rumble_report_id rumble_minimum_size
  ok (rumble_only (get_or raw 1 0) (copy_rumble raw))

unfoldable pub parse_output_report : List ℕ → ProtocolResult OutputReport
unfolding parse_subcommand_report parse_rumble_report
parse_output_report [] = err output_report_empty
parse_output_report (id ∷ rest) =
    if id == subcommand_report_id
    then parse_subcommand_report (id ∷ rest)
    else if id == rumble_report_id
    then parse_rumble_report (id ∷ rest)
    else err (unsupported_output_report id)
