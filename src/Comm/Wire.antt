-- ===== src/Comm/Wire.antt =====
-- The packet that answers the phone, read back from its bytes by their documented offsets.
use smartphone_robot_firmwar.Base.{
  ℕ, ◌+◌, ◌*◌, ◌/◌, ◌%◌, ◌<◌, List, get_or, length, ◌≡◌, refl, arith,
}
use smartphone_robot_firmwar.Comm.State.{OutgoingPacketToAndroid}
use smartphone_robot_firmwar.Comm.Packet.{packet_bytes, state_bytes}

-- What the phone reads at an offset: a byte, or a little-endian number of 2 or 4 bytes.
abbrev u8_at : List ℕ → ℕ → ℕ
u8_at bytes i = get_or bytes i 0

abbrev u16_at : List ℕ → ℕ → ℕ
u16_at bytes i = get_or bytes i 0 + 256 * get_or bytes (i + 1) 0

abbrev u32_at : List ℕ → ℕ → ℕ
u32_at bytes i = u16_at bytes i + 65536 * u16_at bytes (i + 2)

unfoldable pub packet_from : List ℕ → OutgoingPacketToAndroid
packet_from bytes = record {
  start_marker = u8_at bytes 0;
  packet_type = u8_at bytes 1;
  data_size = u16_at bytes 2;
  state = record {
    control_left = u8_at bytes 4;
    control_right = u8_at bytes 5;
    fault_left = u8_at bytes 6;
    fault_right = u8_at bytes 7;
    encoder_left = u32_at bytes 8;
    encoder_right = u32_at bytes 12;
    voltage = u16_at bytes 16;
    safety_status = u8_at bytes 18;
    temperature = u16_at bytes 19;
    state_of_health = u8_at bytes 21;
    flags = u16_at bytes 22;
    max77976_chg_details = u32_at bytes 24;
    wireless_charger_attached = u8_at bytes 28;
    usb_charger_voltage = u16_at bytes 29;
    wireless_charger_vrect = u16_at bytes 31;
  };
  end_marker = u8_at bytes 33;
}

-- The numbers of more than a byte fit their fields.
pub record Fits (p : OutgoingPacketToAndroid) : Type 0 where
  pub data_size : p.data_size < 65536
  pub encoder_left : p.state.encoder_left < 4294967296
  pub encoder_right : p.state.encoder_right < 4294967296
  pub voltage : p.state.voltage < 65536
  pub temperature : p.state.temperature < 65536
  pub flags : p.state.flags < 65536
  pub chg_details : p.state.max77976_chg_details < 4294967296
  pub usb_charger_voltage : p.state.usb_charger_voltage < 65536
  pub vrect : p.state.wireless_charger_vrect < 65536

two_bytes : (x : ℕ) → x < 65536 → x % 256 + 256 * (x / 256 % 256) ≡ x
two_bytes x h = omega arith

four_bytes :
    (x : ℕ)
    → x < 4294967296
    → (x % 256 + 256 * (x / 256 % 256)) + 65536 * (x / 65536 % 256 + 256 * (x / 16777216 % 256)) ≡ x
four_bytes x h = omega arith

-- The packet whose fields fit is sent in 34 bytes, 5 more than the 29 of its state, and reading these
-- at their offsets gives back every field.
pub packet_bytes-roundtrip :
    (p : OutgoingPacketToAndroid)
    → Fits p
    → (length (packet_bytes p) ≡ 5 + 29) × (packet_from (packet_bytes p) ≡ p)
unfolding packet_bytes state_bytes packet_from
packet_bytes-roundtrip p f = (
  refl,
  rw (
    two_bytes p.data_size f.data_size,
    four_bytes p.state.encoder_left f.encoder_left,
    four_bytes p.state.encoder_right f.encoder_right,
    two_bytes p.state.voltage f.voltage,
    two_bytes p.state.temperature f.temperature,
    two_bytes p.state.flags f.flags,
    four_bytes p.state.max77976_chg_details f.chg_details,
    two_bytes p.state.usb_charger_voltage f.usb_charger_voltage,
    two_bytes p.state.wireless_charger_vrect f.vrect,
  ),
)
