-- ===== src/Comm/Commands.antt =====
-- src/serial_comm_manager.c: the commands that a whole frame carries out.
use smartphone_robot_firmwar.Base.{ℕ, ◌<◌, false, [], ◌∷◌, some, ◌==◌, ◌≡◌, ◌∙◌, arith}
use smartphone_robot_firmwar.Board.Sdk.{Event, i2c0}
use smartphone_robot_firmwar.Board.{Hardware, World, ok, ◌>>=◌}
use smartphone_robot_firmwar.Motor.{set_motor_control}
use smartphone_robot_firmwar.Robot.{set_motor_levels}
use smartphone_robot_firmwar.Comm.State.{IncomingPacketFromAndroid}
use smartphone_robot_firmwar.Comm.{
  zero_incoming, zero_state, get_block, handle_packet, send_state, set_packet_type,
}
use smartphone_robot_firmwar.Comm.Frames.{char_at, waits, get_block-frame}

-- The command SET_MOTOR_LEVEL writes its first data byte to the control register of the left motor and
-- then its second to that of the right one, before the state is collected and sent; the state that is
-- sent starts from zeros and these two levels.
pub set_motor_level_lem :
    (hw : Hardware) (packet : IncomingPacketFromAndroid) (left right : ℕ) (w : World)
    → packet.packet_type ≡ 0x01
    → packet.payload ≡ left ∷ right ∷ []
    → handle_packet hw packet w ≡ (
        let levels = record zero_state { control_left = left; control_right = right } in
        send_state hw levels (record w {
          trace =
              Event.i2c_write_blocking i2c0 0x62 (0x00 ∷ right ∷ []) false
              ∷ Event.i2c_write_blocking i2c0 0x60 (0x00 ∷ left ∷ []) false
              ∷ w.trace;
          comm = record (w.comm) {
            rp2040_state = levels;
            outgoing = record (w.comm.outgoing) { packet_type = 0x01 };
          };
        }))
unfolding handle_packet set_packet_type set_motor_levels set_motor_control
set_motor_level_lem hw packet left right w e two =
    simp (handle_packet, set_packet_type, set_motor_levels, set_motor_control, ◌>>=◌, e, two)

-- Where no end index is set and the packet has its two data bytes, a whole frame with a command byte
-- above 3 gets no answer: the 5 calls for a character are all that happens outside, the received packet
-- is cleared, both indices are reset, and the type of the next packet is a NACK.
pub get_block-unknown :
    (hw : Hardware) (w : World) (command left right p0 p1 : ℕ)
    → 3 < command
    → w.comm.end_idx ≡ 0xff
    → w.comm.incoming.payload ≡ p0 ∷ p1 ∷ []
    → command < 256
    → left < 256
    → right < 256
    → char_at hw w 1 ≡ some 0xfe
    → char_at hw w 2 ≡ some command
    → char_at hw w 3 ≡ some left
    → char_at hw w 4 ≡ some right
    → char_at hw w 5 ≡ some 0xff
    → get_block hw w
      ≡ ok tt (record w {
        trace = waits 5 w.trace;
        comm = record (w.comm) {
          start_idx = 0xff;
          end_idx = 0xff;
          incoming = zero_incoming;
          outgoing = record (w.comm.outgoing) { packet_type = 0xfc };
        };
      })
unfolding handle_packet set_packet_type
get_block-unknown hw w command left right p0 p1 unknown no_end two hc hl hr e1 e2 e3 e4 e5 =
    get_block-frame hw w command left right p0 p1 no_end two hc hl hr e1 e2 e3 e4 e5
    ∙ simp (
      handle_packet,
      set_packet_type,
      ◌>>=◌,
      not_known 0 (omega arith),
      not_known 1 (omega arith),
      not_known 2 (omega arith),
      not_known 3 (omega arith),
    )
  where
    not_known : (n : ℕ) → n < command → (command == n) ≡ false
    not_known n h = ground arith
