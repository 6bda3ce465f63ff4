-- ===== src/Comm/State.antt =====
-- The types of include/serial_comm_manager.h and the static variables of src/serial_comm_manager.c.
use smartphone_robot_firmwar.Base.{ℕ, List}

-- `RP2040_STATE`, its nested structs flattened in the order of their fields.
pub record Rp2040State : Type 0 where
  pub control_left : ℕ  -- uint8_t, as are the next three
  pub control_right : ℕ
  pub fault_left : ℕ
  pub fault_right : ℕ
  pub encoder_left : ℕ  -- uint32_t
  pub encoder_right : ℕ
  pub voltage : ℕ  -- uint16_t
  pub safety_status : ℕ  -- uint8_t
  pub temperature : ℕ  -- uint16_t
  pub state_of_health : ℕ  -- uint8_t
  pub flags : ℕ  -- uint16_t
  pub max77976_chg_details : ℕ  -- uint32_t
  pub wireless_charger_attached : ℕ  -- uint8_t
  pub usb_charger_voltage : ℕ  -- uint16_t
  pub wireless_charger_vrect : ℕ

pub record IncomingPacketFromAndroid : Type 0 where
  pub start_marker : ℕ
  pub packet_type : ℕ
  pub payload : List ℕ  -- `data`, of ANDROID_BUFFER_LENGTH_IN bytes
  pub end_marker : ℕ

pub record OutgoingPacketToAndroid : Type 0 where
  pub start_marker : ℕ
  pub packet_type : ℕ
  pub data_size : ℕ  -- uint16_t
  pub state : Rp2040State  -- `data`
  pub end_marker : ℕ

-- Its `data` pointer is never used.
pub record OutgoingLogPacketToAndroid : Type 0 where
  pub start_marker : ℕ
  pub packet_type : ℕ
  pub data_size : ℕ
  pub end_marker : ℕ

-- The two indices are `int8_t`, kept as 8-bit patterns: -1 is 0xff.
pub record CommState : Type 0 where
  pub incoming : IncomingPacketFromAndroid
  pub outgoing : OutgoingPacketToAndroid
  pub outgoing_log : OutgoingLogPacketToAndroid
  pub rp2040_state : Rp2040State
  pub start_idx : ℕ
  pub end_idx : ℕ
