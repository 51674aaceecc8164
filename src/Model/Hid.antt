-- ===== src/Model/Hid.antt =====
-- crates/swbt-core/src/model/hid.rs: the HID service records of the two controller families and
-- the report descriptor.
use Prim.Native.String.{String}
use swbt_rs.Base.{ℕ, Bool, true, false, Option, none, some, List, [], ◌∷◌}

pub record HidSdpPolicySpec : Type 0 where
  pub service_name : Option String
  pub service_description : Option String
  pub provider_name : Option String
  pub device_release_number : Option ℕ
  pub bluetooth_profile_version : ℕ
  pub parser_version : ℕ
  pub device_subclass : ℕ
  pub country_code : ℕ
  pub virtual_cable : Bool
  pub reconnect_initiate : Bool
  pub remote_wake : Option Bool
  pub profile_version : ℕ
  pub supervision_timeout : ℕ
  pub normally_connectable : Bool
  pub boot_device : Bool
  pub ssr_host_max_latency : ℕ
  pub ssr_host_min_timeout : ℕ

unfoldable pub pro_policy : HidSdpPolicySpec
pro_policy = record {
  service_name = none;
  service_description = none;
  provider_name = none;
  device_release_number = none;
  bluetooth_profile_version = 0x0101;
  parser_version = 0x0111;
  device_subclass = 0x08;
  country_code = 0x21;
  virtual_cable = true;
  reconnect_initiate = true;
  remote_wake = some true;
  profile_version = 0x0101;
  supervision_timeout = 0x0C80;
  normally_connectable = true;
  boot_device = false;
  ssr_host_max_latency = 0xFFFF;
  ssr_host_min_timeout = 0xFFFF;
}

unfoldable pub joycon_policy : HidSdpPolicySpec
joycon_policy = record {
  service_name = some "Wireless Gamepad";
  service_description = some "Gamepad";
  provider_name = some "Nintendo";
  device_release_number = some 0x0100;
  bluetooth_profile_version = 0x0100;
  parser_version = 0x0111;
  device_subclass = 0x08;
  country_code = 0x00;
  virtual_cable = true;
  reconnect_initiate = true;
  remote_wake = none;
  profile_version = 0x0100;
  supervision_timeout = 0x0C80;
  normally_connectable = false;
  boot_device = true;
  ssr_host_max_latency = 0x0640;
  ssr_host_min_timeout = 0x0320;
}

unfoldable pub report_descriptor : List ℕ
report_descriptor =
    0x05 ∷ 0x01 ∷ 0x15 ∷ 0x00 ∷ 0x09 ∷ 0x04 ∷ 0xA1 ∷ 0x01 ∷ 0x85 ∷ 0x30 ∷ 0x05 ∷ 0x01 ∷ 0x05 ∷ 0x09
    ∷ 0x19 ∷ 0x01 ∷ 0x29 ∷ 0x0A ∷ 0x15 ∷ 0x00 ∷ 0x25 ∷ 0x01 ∷ 0x75 ∷ 0x01 ∷ 0x95 ∷ 0x0A ∷ 0x55
    ∷ 0x00 ∷ 0x65 ∷ 0x00 ∷ 0x81 ∷ 0x02 ∷ 0x05 ∷ 0x09 ∷ 0x19 ∷ 0x0B ∷ 0x29 ∷ 0x0E ∷ 0x15 ∷ 0x00
    ∷ 0x25 ∷ 0x01 ∷ 0x75 ∷ 0x01 ∷ 0x95 ∷ 0x04 ∷ 0x81 ∷ 0x02 ∷ 0x75 ∷ 0x01 ∷ 0x95 ∷ 0x02 ∷ 0x81
    ∷ 0x03 ∷ 0x0B ∷ 0x01 ∷ 0x00 ∷ 0x01 ∷ 0x00 ∷ 0xA1 ∷ 0x00 ∷ 0x0B ∷ 0x30 ∷ 0x00 ∷ 0x01 ∷ 0x00
    ∷ 0x0B ∷ 0x31 ∷ 0x00 ∷ 0x01 ∷ 0x00 ∷ 0x0B ∷ 0x32 ∷ 0x00 ∷ 0x01 ∷ 0x00 ∷ 0x0B ∷ 0x35 ∷ 0x00
    ∷ 0x01 ∷ 0x00 ∷ 0x15 ∷ 0x00 ∷ 0x27 ∷ 0xFF ∷ 0xFF ∷ 0x00 ∷ 0x00 ∷ 0x75 ∷ 0x10 ∷ 0x95 ∷ 0x04
    ∷ 0x81 ∷ 0x02 ∷ 0xC0 ∷ 0x0B ∷ 0x39 ∷ 0x00 ∷ 0x01 ∷ 0x00 ∷ 0x15 ∷ 0x00 ∷ 0x25 ∷ 0x07 ∷ 0x35
    ∷ 0x00 ∷ 0x46 ∷ 0x3B ∷ 0x01 ∷ 0x65 ∷ 0x14 ∷ 0x75 ∷ 0x04 ∷ 0x95 ∷ 0x01 ∷ 0x81 ∷ 0x02 ∷ 0x05
    ∷ 0x09 ∷ 0x19 ∷ 0x0F ∷ 0x29 ∷ 0x12 ∷ 0x15 ∷ 0x00 ∷ 0x25 ∷ 0x01 ∷ 0x75 ∷ 0x01 ∷ 0x95 ∷ 0x04
    ∷ 0x81 ∷ 0x02 ∷ 0x75 ∷ 0x08 ∷ 0x95 ∷ 0x34 ∷ 0x81 ∷ 0x03 ∷ 0x06 ∷ 0x00 ∷ 0xFF ∷ 0x85 ∷ 0x21
    ∷ 0x09 ∷ 0x01 ∷ 0x75 ∷ 0x08 ∷ 0x95 ∷ 0x3F ∷ 0x81 ∷ 0x03 ∷ 0x85 ∷ 0x81 ∷ 0x09 ∷ 0x02 ∷ 0x75
    ∷ 0x08 ∷ 0x95 ∷ 0x3F ∷ 0x81 ∷ 0x03 ∷ 0x85 ∷ 0x01 ∷ 0x09 ∷ 0x03 ∷ 0x75 ∷ 0x08 ∷ 0x95 ∷ 0x3F
    ∷ 0x91 ∷ 0x83 ∷ 0x85 ∷ 0x10 ∷ 0x09 ∷ 0x04 ∷ 0x75 ∷ 0x08 ∷ 0x95 ∷ 0x3F ∷ 0x91 ∷ 0x83 ∷ 0x85
    ∷ 0x80 ∷ 0x09 ∷ 0x05 ∷ 0x75 ∷ 0x08 ∷ 0x95 ∷ 0x3F ∷ 0x91 ∷ 0x83 ∷ 0x85 ∷ 0x82 ∷ 0x09 ∷ 0x06
    ∷ 0x75 ∷ 0x08 ∷ 0x95 ∷ 0x3F ∷ 0x91 ∷ 0x83 ∷ 0xC0 ∷ []
