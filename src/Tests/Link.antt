-- ===== src/Tests/Link.antt =====
-- The serial link at concrete frames.
use smartphone_robot_firmwar.Base.{
  ℕ, zero, suc, ◌+◌, ◌/◌, ◌<◌, [], ◌∷◌, ◌++◌, some, bit_and, ◌≡◌, refl, arith, length, false,
}
use mathlib.Core.List.{List, flatten}
use smartphone_robot_firmwar.Log
use smartphone_robot_firmwar.Log.Lines.{boot-IsValid}
use smartphone_robot_firmwar.Log.Order.{contents}
use smartphone_robot_firmwar.Board.Sdk.{Event, i2c0}
use smartphone_robot_firmwar.Board.{Hardware, ok, ◌>>=◌, ◌>>◌, rp2040_log}
use smartphone_robot_firmwar.Comm.State.{IncomingPacketFromAndroid, OutgoingPacketToAndroid}
use smartphone_robot_firmwar.Comm.Packet.{packet_bytes}
use smartphone_robot_firmwar.Comm.{
  zero_incoming, zero_state, update, get_block, handle_packet, read_packet, send_state,
  reset_packet_and_send_nack,
}
use smartphone_robot_firmwar.Comm.Frames.{
  HadFuel, waits, begun, get_block-frame, get_block-no_end, get_block-timeout, read_packet-enough,
}
use smartphone_robot_firmwar.Robot.Devices.{Devices, Answers}
use smartphone_robot_firmwar.Robot.Collected.{held}
use smartphone_robot_firmwar.Comm.Report.{Reports, send_state-Reports}
use smartphone_robot_firmwar.Comm.Commands.{set_motor_level_lem, get_block-unknown}
use smartphone_robot_firmwar.Comm.Output.{
  output, put, log_sent, reset_packet_and_send_nack_lem, send_log_lem,
}
use smartphone_robot_firmwar.Comm.Ready.{IsReady, Returned, get_blocks, get_blocks-IsReady}
use smartphone_robot_firmwar.Comm.Wire.{packet_from, packet_bytes-roundtrip}
use smartphone_robot_firmwar.Tests.Scenario.{board, start, fresh, scripted}

abbrev motors : IncomingPacketFromAndroid
motors = record (zero_incoming) { packet_type = 1; payload = 0x15 ∷ 0x16 ∷ [] }

get_block-frame_example :
    get_block (board (0xfe ∷ 1 ∷ 0x15 ∷ 0x16 ∷ 0xff ∷ [])) (start [])
    ≡ (handle_packet (board (0xfe ∷ 1 ∷ 0x15 ∷ 0x16 ∷ 0xff ∷ [])) motors >>= λ _.
          update (λ c. record c { start_idx = 0xff; end_idx = 0xff; incoming = zero_incoming }))
        (record (start (waits 5 [])) {
          comm = record ((start []).comm) { start_idx = 0; incoming = motors };
        })
get_block-frame_example =
    get_block-frame (board (0xfe ∷ 1 ∷ 0x15 ∷ 0x16 ∷ 0xff ∷ [])) (start []) 1 0x15 0x16 0 0 refl
      refl (omega arith) (omega arith) (omega arith) refl refl refl refl refl

get_block-no_end_example :
    get_block (board (0xfe ∷ 1 ∷ 2 ∷ 3 ∷ 4 ∷ [])) (start [])
    ≡ (rp2040_log
            (board (0xfe ∷ 1 ∷ 2 ∷ 3 ∷ 4 ∷ []))
            "Received packet with no end marker. Resetting state.\n"
            []
          >> reset_packet_and_send_nack)
        (begun (board (0xfe ∷ 1 ∷ 2 ∷ 3 ∷ 4 ∷ [])) (start []) 5)
get_block-no_end_example =
    get_block-no_end (board (0xfe ∷ 1 ∷ 2 ∷ 3 ∷ 4 ∷ [])) (start []) 1 2 3 refl refl refl refl refl

abbrev second : ℕ → ℕ
second n = 1

first_byte : (n : ℕ) → n < 1 → scripted (0xfe ∷ 1 ∷ []) (waits (2 + n) []) ≡ some (second n)
first_byte zero h = refl
first_byte (suc n) h = absurd (omega arith)

get_block-timeout_example :
    get_block (board (0xfe ∷ 1 ∷ [])) (start [])
    ≡ (rp2040_log (board (0xfe ∷ 1 ∷ [])) "Timeout while reading packet. Resetting state.\n" []
          >> reset_packet_and_send_nack)
        (begun (board (0xfe ∷ 1 ∷ [])) (start []) 3)
get_block-timeout_example =
    get_block-timeout (board (0xfe ∷ 1 ∷ [])) (start []) 1 second (omega arith) refl first_byte refl

read_packet-enough_example :
    HadFuel (read_packet (board (1 ∷ 2 ∷ 3 ∷ [])) 4 0 0 (start []))
    × (read_packet (board (1 ∷ 2 ∷ 3 ∷ [])) 9 0 0 (start [])
        ≡ read_packet (board (1 ∷ 2 ∷ 3 ∷ [])) 4 0 0 (start []))
read_packet-enough_example = read_packet-enough (board (1 ∷ 2 ∷ 3 ∷ [])) 5 (start [])

get_block-unknown_example :
    get_block (board (0xfe ∷ 9 ∷ 0 ∷ 0 ∷ 0xff ∷ [])) (start [])
    ≡ ok tt (record (start (waits 5 [])) {
      comm = record ((start []).comm) {
        outgoing = record ((start []).comm.outgoing) { packet_type = 0xfc };
      };
    })
get_block-unknown_example =
    get_block-unknown (board (0xfe ∷ 9 ∷ 0 ∷ 0 ∷ 0xff ∷ [])) (start []) 9 0 0 0 0 (omega arith) refl
      refl (omega arith) (omega arith) (omega arith) refl refl refl refl refl

set_motor_level_lem_example :
    handle_packet (board []) motors (start [])
    ≡ send_state
        (board [])
        (record zero_state { control_left = 0x15; control_right = 0x16 })
        (record (start (
          Event.i2c_write_blocking i2c0 0x62 (0x00 ∷ 0x16 ∷ []) false
          ∷ Event.i2c_write_blocking i2c0 0x60 (0x00 ∷ 0x15 ∷ []) false
          ∷ [])) {
            comm = record ((start []).comm) {
              rp2040_state = record zero_state { control_left = 0x15; control_right = 0x16 };
              outgoing = record ((start []).comm.outgoing) { packet_type = 0x01 };
            };
          })
set_motor_level_lem_example = set_motor_level_lem (board []) motors 0x15 0x16 (start []) refl refl

abbrev refused : OutgoingPacketToAndroid
refused = record ((start []).comm.outgoing) { packet_type = 0xfc }

reset_packet_and_send_nack_lem_example :
    (reset_packet_and_send_nack (start [])
      ≡ ok tt (record (start (put (packet_bytes refused) [])) {
        comm = record ((start []).comm) { outgoing = refused };
      }))
    × (output (put (packet_bytes refused) []) ≡ output [] ++ packet_bytes refused)
reset_packet_and_send_nack_lem_example = reset_packet_and_send_nack_lem (start [])

send_log_lem_example :
    (handle_packet (board []) zero_incoming (start [])
      ≡ ok tt
          (record (start
            (log_sent 0xfe (Log.rp2040_get_byte_count fresh) 0xff (flatten (contents fresh)) [])) {
              comm = record ((start []).comm) {
                outgoing_log = record ((start []).comm.outgoing_log) {
                  data_size = Log.rp2040_get_byte_count fresh;
                };
              };
            }))
    × (output (log_sent 0xfe (Log.rp2040_get_byte_count fresh) 0xff (flatten (contents fresh)) [])
        ≡ output []
          ++ (0xfe
                ∷ 0x00
                ∷ bit_and (Log.rp2040_get_byte_count fresh) 0xff
                ∷ bit_and (Log.rp2040_get_byte_count fresh / 256) 0xff
                ∷ flatten (contents fresh)
              ++ (0xff ∷ [])))
send_log_lem_example = send_log_lem (board []) zero_incoming (start []) refl boot-IsValid

packet_bytes-roundtrip_example :
    (length (packet_bytes refused) ≡ 5 + 29) × (packet_from (packet_bytes refused) ≡ refused)
packet_bytes-roundtrip_example = packet_bytes-roundtrip refused (record {
  data_size = omega arith;
  encoder_left = omega arith;
  encoder_right = omega arith;
  voltage = omega arith;
  temperature = omega arith;
  flags = omega arith;
  chg_details = omega arith;
  usb_charger_voltage = omega arith;
  vrect = omega arith;
})

get_blocks-IsReady_example :
    Returned (λ u w'. IsReady w'.comm) (get_blocks (board (0xfe ∷ 3 ∷ 0 ∷ [])) 2 (start []))
get_blocks-IsReady_example =
    get_blocks-IsReady (board (0xfe ∷ 3 ∷ 0 ∷ [])) 2 (start []) (refl, (refl, (refl, refl)))

-- The gauge answers 0x21 and 0x43, the converter 0x123.
abbrev still : Devices
still = record {
  gauge_low = λ register. 0x21;
  gauge_high = λ register. 0x43;
  count = λ i. 7;
  voltage = λ input. 0x123;
  behind = 1 ∷ 2 ∷ 3 ∷ 4 ∷ [];
}

-- A fault register reads 0 after it was cleared, and 0x10 before.
abbrev fault_byte : List Event → List ℕ
fault_byte (e ∷ Event.i2c_write_timeout_us bus addr (one ∷ command ∷ []) stop ∷ t) = 0 ∷ []
fault_byte h = 0x10 ∷ []

abbrev answered_len : ℕ → List Event → List ℕ
answered_len (suc zero) t = fault_byte t
answered_len n t = 0x21 ∷ 0x43 ∷ []

abbrev answered : List Event → List ℕ
answered (Event.i2c_read_timeout_us bus addr n stop ∷ t) = answered_len n t
answered h = []

abbrev still_board : Hardware
still_board = record (board []) { read_bytes = answered }

still_board-Answers : Answers still_board still
still_board-Answers = record {
  acks = record { writes = λ h. refl; reads = λ h. refl };
  gauge = λ register t. refl;
  count = λ i t. refl;
  voltage = λ input t. refl;
  behind = λ t. refl;
  clears = λ addr t. refl;
}

send_state-Reports_example :
    Reports
      (held still_board still 0 0 zero_state (start []))
      (send_state still_board zero_state (start []))
send_state-Reports_example =
    send_state-Reports still_board still 0 0 zero_state (start []) still_board-Answers refl
      (omega arith)
