-- ===== src/Comm/Output.antt =====
-- src/serial_comm_manager.c: the bytes that the answers put on the link.
use mathlib.Core.List.{flatten}
use smartphone_robot_firmwar.Base.{
  ℕ, ◌/◌, List, [], ◌∷◌, ◌++◌, append-nil, append_assoc, bit_and, ◌≡◌, refl, ◌∙◌, sym,
}
use smartphone_robot_firmwar.Log
use smartphone_robot_firmwar.Log.Lines.{IsValid}
use smartphone_robot_firmwar.Log.Order.{contents, rp2040_log_flush_lem}
use smartphone_robot_firmwar.Board.Sdk.{Event}
use smartphone_robot_firmwar.Board.{Hardware, World, ok, ◌>>=◌}
use smartphone_robot_firmwar.Comm.State.{IncomingPacketFromAndroid}
use smartphone_robot_firmwar.Comm.Packet.{packet_bytes}
use smartphone_robot_firmwar.Comm.{
  zero_incoming, put_bytes, put_outgoing, reset_packet_and_send_nack, send_log, handle_packet,
}

-- The bytes sent so far, oldest first.
unfoldable pub output : List Event → List ℕ
output [] = []
output (Event.putchar b ∷ t) = output t ++ (b ∷ [])
output (_ ∷ t) = output t

-- The history after sending bytes.
abbrev pub put : List ℕ → List Event → List Event
put [] t = t
put (b ∷ bs) t = put bs (Event.putchar b ∷ t)

pub put_bytes_lem :
    (bs : List ℕ) (w : World) → put_bytes bs w ≡ ok tt (record w { trace = put bs w.trace })
unfolding put_bytes
put_bytes_lem [] w = refl
put_bytes_lem (b ∷ bs) w = put_bytes_lem bs (record w { trace = Event.putchar b ∷ w.trace })

pub output-put : (bs : List ℕ) (t : List Event) → output (put bs t) ≡ output t ++ bs
unfolding output
output-put [] t = sym (append-nil (output t))
output-put (b ∷ bs) t = output-put bs (Event.putchar b ∷ t) ∙ append_assoc (output t) (b ∷ []) bs

-- The reset clears the received packet, unsets both indices, makes the outgoing packet a NACK and puts
-- exactly the bytes of that packet on the link.
pub reset_packet_and_send_nack_lem :
    (w : World)
    → (let refused = record (w.comm.outgoing) { packet_type = 0xfc } in
        let bytes = packet_bytes refused in
        (reset_packet_and_send_nack w
          ≡ ok tt (record w {
            trace = put bytes w.trace;
            comm = record (w.comm) {
              start_idx = 0xff;
              end_idx = 0xff;
              incoming = zero_incoming;
              outgoing = refused;
            };
          }))
        × (output (put bytes w.trace) ≡ output w.trace ++ bytes))
unfolding reset_packet_and_send_nack put_outgoing
reset_packet_and_send_nack_lem w = (put_bytes_lem _ _, output-put _ w.trace)

-- The history after a log is sent.
abbrev pub log_sent : ℕ → ℕ → ℕ → List ℕ → List Event → List Event
log_sent start count end lines t =
    Event.putchar end
    ∷ Event.mutex_exit
    ∷ put lines (
        Event.putchar (bit_and (count / 256) 0xff)
        ∷ Event.putchar (bit_and count 0xff)
        ∷ Event.mutex_enter_blocking
        ∷ Event.putchar 0x00
        ∷ Event.putchar start
        ∷ t)

output-log_sent :
    (start count end : ℕ) (lines : List ℕ) (t : List Event)
    → output (log_sent start count end lines t)
      ≡ output t
        ++ (start ∷ 0x00 ∷ bit_and count 0xff ∷ bit_and (count / 256) 0xff ∷ lines ++ (end ∷ []))
unfolding output
output-log_sent start count end lines t = simp (output-put, append_assoc)

-- With a well-formed log buffer, the command GET_LOG sends the start marker, the command, the byte
-- count with its low byte first, the lines of the log from the oldest to the newest and the end
-- marker; the buffer stays as it was, and it is locked while its lines are sent.
pub send_log_lem :
    (hw : Hardware) (packet : IncomingPacketFromAndroid) (w : World)
    → packet.packet_type ≡ 0x00
    → IsValid w.log_buffer
    → (let start = w.comm.outgoing_log.start_marker in
        let count = Log.rp2040_get_byte_count w.log_buffer in
        let end = w.comm.outgoing_log.end_marker in
        let lines = flatten (contents w.log_buffer) in
        (handle_packet hw packet w
          ≡ ok tt (record w {
            trace = log_sent start count end lines w.trace;
            comm = record (w.comm) {
              outgoing_log = record (w.comm.outgoing_log) { packet_type = 0x00; data_size = count };
            };
          }))
        × (output (log_sent start count end lines w.trace)
            ≡ output w.trace
              ++ (start ∷ 0x00 ∷ bit_and count 0xff ∷ bit_and (count / 256) 0xff ∷ lines
                  ++ (end ∷ []))))
unfolding handle_packet send_log
send_log_lem hw packet w e v = (
  simp (handle_packet, send_log, ◌>>=◌, e, rp2040_log_flush_lem w.log_buffer v, put_bytes_lem),
  output-log_sent w.comm.outgoing_log.start_marker (Log.rp2040_get_byte_count w.log_buffer)
      w.comm.outgoing_log.end_marker (flatten (contents w.log_buffer)) w.trace,
)
