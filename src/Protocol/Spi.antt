-- ===== src/Protocol/Spi.antt =====
-- crates/swbt-core/src/protocol/spi.rs: the read-only virtual flash.
pub mod Reads
use swbt_rs.Base.{
  ℕ, zero, suc, ◌+◌, ◌-◌, ◌/◌, ◌%◌, ◌^◌, Bool, Option, none, some, List, ltb, leb, ◌==◌, ◌&&◌,
  if◌then◌else◌, get_or, set, take, replicate, ok, err,
}
use swbt_rs.Model.Spec.{ControllerKind, SensorCalibration, protocol}
use swbt_rs.Profile.Colors.{ControllerColors, to_spi_bytes}
use swbt_rs.Protocol.Imu.{le16}
use swbt_rs.Protocol.Error.{ProtocolResult, spi_read_too_large, spi_address_out_of_range}

abbrev pub address_limit : ℕ
address_limit = 0x80000

abbrev pub max_read_size : ℕ
max_read_size = 0x1D

abbrev pub erased_byte : ℕ
erased_byte = 0xFF

pub record SpiRead : Type 0 where
  pub bytes : List ℕ
  pub len : ℕ

unfoldable pub as_slice : SpiRead → List ℕ
as_slice read = take read.len read.bytes

pub record VirtualSpiFlash : Type 0 where
  pub colors : ControllerColors

unfoldable pub new : ControllerKind → Option ControllerColors → VirtualSpiFlash
new m none = record { colors = (protocol m).default_colors }
new m (some colors) = record { colors = colors }

-- `value.to_le_bytes()[(offset % 2) as usize]` of the axis that the offset names.
unfoldable pub calibration_byte : SensorCalibration → ℕ → ℕ
calibration_byte calibration offset =
    let value_index = offset / 2 in
    let axis = value_index % 3 in
    let value =
      if ltb value_index 3
      then get_or calibration.zero_raw axis 0
      else get_or calibration.reference_raw axis 0 in
    get_or (le16 value) (offset % 2) 0

abbrev within : ℕ → ℕ → ℕ → Bool
within low high address = leb low address && leb address high

unfoldable pub byte_at : ControllerKind → VirtualSpiFlash → ℕ → ℕ
unfolding calibration_byte
byte_at m flash address =
    if address == 0x6012
    then (protocol m).device_type
    else if address == 0x601B
    then 0x01
    else if within 0x6020 0x602B address
    then calibration_byte (protocol m).accelerometer_calibration (address - 0x6020)
    else if within 0x602C 0x6037 address
    then calibration_byte (protocol m).gyroscope_calibration (address - 0x602C)
    else if within 0x6050 0x605B address
    then get_or (to_spi_bytes flash.colors) (address - 0x6050) 0
    else erased_byte

-- The loop over `bytes[..size]`: the rounds that are left and the next offset.
unfoldable pub read_loop : (ℕ → ℕ) → ℕ → ℕ → ℕ → List ℕ → List ℕ
read_loop byte zero offset address bytes = bytes
read_loop byte (suc rounds) offset address bytes =
    read_loop byte rounds (suc offset) address (set bytes offset (byte (address + offset)))

-- `checked_add` of two `u32` fails where the sum reaches 2 ^ 32.
unfoldable pub read : ControllerKind → VirtualSpiFlash → ℕ → ℕ → ProtocolResult SpiRead
read m flash address size =
    if ltb max_read_size size
    then err (spi_read_too_large size max_read_size)
    else if leb (2 ^ 32) (address + size)
    then err (spi_address_out_of_range address size)
    else if ltb address_limit (address + size)
    then err (spi_address_out_of_range address size)
    else ok (record {
      bytes = read_loop (byte_at m flash) size 0 address (replicate max_read_size erased_byte);
      len = size;
    })
