-- ===== src/Protocol/Error.antt =====
-- crates/swbt-core/src/protocol/error.rs. The formatting of the errors is not modelled.
use swbt_rs.Base.{ℕ, List, Result}
use swbt_rs.Model.Button.{ButtonKind}

pub data ProtocolError : Type 0 where
  -- size, maximum
  spi_read_too_large : ℕ → ℕ → ProtocolError
  -- address, size
  spi_address_out_of_range : ℕ → ℕ → ProtocolError
  output_report_empty : ProtocolError
  -- report_id
  unsupported_output_report : ℕ → ProtocolError
  -- report_id, minimum, actual
  truncated_output_report : ℕ → ℕ → ℕ → ProtocolError
  -- size, maximum
  subcommand_reply_data_too_large : ℕ → ℕ → ProtocolError
  unsupported_trigger_elapsed_button : ButtonKind → ProtocolError
  -- minimum, actual
  truncated_spi_read_request : ℕ → ℕ → ProtocolError
  -- subcommand_id
  missing_subcommand_argument : ℕ → ProtocolError
  -- requested, accepted
  unsupported_imu_mode : ℕ → List ℕ → ProtocolError
  -- requested
  invalid_vibration_value : ℕ → ProtocolError
  invalid_nfc_ir_mcu_state : ℕ → ProtocolError
  -- subcommand_id
  unsupported_subcommand : ℕ → ProtocolError

abbrev pub ProtocolResult {ℓ} : Type ℓ → Type ℓ
ProtocolResult A = Result ProtocolError A
