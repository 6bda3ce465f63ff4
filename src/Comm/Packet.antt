-- ===== src/Comm/Packet.antt =====
-- include/serial_comm_manager.h: the packed bytes of the packet that answers the phone.
use smartphone_robot_firmwar.Base.{ℕ, ◌/◌, ◌%◌, List, [], ◌∷◌}
use smartphone_robot_firmwar.Comm.State.{Rp2040State, OutgoingPacketToAndroid}

-- The bytes of a `uint16_t` and of a `uint32_t` in memory, on the little-endian RP2040.
abbrev pub bytes16 : ℕ → List ℕ → List ℕ
bytes16 x rest = x % 256 ∷ x / 256 % 256 ∷ rest

abbrev pub bytes32 : ℕ → List ℕ → List ℕ
bytes32 x rest = x % 256 ∷ x / 256 % 256 ∷ x / 65536 % 256 ∷ x / 16777216 % 256 ∷ rest

-- The bytes of the struct under `#pragma pack(1)`, in front of `rest`.
unfoldable pub state_bytes : Rp2040State → List ℕ → List ℕ
state_bytes s rest =
    s.control_left
    ∷ s.control_right
    ∷ s.fault_left
    ∷ s.fault_right
    ∷ bytes32 s.encoder_left (
        bytes32 s.encoder_right (
          bytes16 s.voltage (
            s.safety_status
            ∷ bytes16 s.temperature (
                s.state_of_health
                ∷ bytes16 s.flags (
                    bytes32 s.max77976_chg_details (
                      s.wireless_charger_attached
                      ∷ bytes16 s.usb_charger_voltage (bytes16 s.wireless_charger_vrect rest)))))))

-- `(uint8_t*)&outgoing_packet_to_android`
unfoldable pub packet_bytes : OutgoingPacketToAndroid → List ℕ
packet_bytes p =
    p.start_marker ∷ p.packet_type ∷ bytes16 p.data_size (state_bytes p.state (p.end_marker ∷ []))
