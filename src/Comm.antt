-- ===== src/Comm.antt =====
-- src/serial_comm_manager.c: the serial link to the phone. A frame is a start marker, the command, two
-- data bytes and an end marker.
pub mod State
pub mod Packet
pub mod Wire
pub mod Report
pub mod Output
pub mod Frames
pub mod Commands
pub mod Ready
use smartphone_robot_firmwar.Base.{
  ℕ, zero, suc, ◌+◌, ◌-◌, ◌*◌, ◌/◌, ◌%◌, ◌^◌, Bool, true, false, ◌||◌, List, [], ◌∷◌, String,
  Option, none, some, bit_and, ◌==◌, ltb, leb, if◌then◌else◌, get_or, set, u8, u16,
}
use smartphone_robot_firmwar.Log
use smartphone_robot_firmwar.Board.Sdk.{Event}
use smartphone_robot_firmwar.Board.{
  Hardware, World, M, pure, ◌>>=◌, ◌>>◌, modify, gets, call, ask, rp2040_log,
  rp2040_log_acquire_lock, rp2040_log_release_lock,
}
use smartphone_robot_firmwar.Comm.State.{
  Rp2040State, IncomingPacketFromAndroid, OutgoingPacketToAndroid, OutgoingLogPacketToAndroid,
  CommState,
}
use smartphone_robot_firmwar.Comm.Packet.{packet_bytes}
use smartphone_robot_firmwar.Robot.{set_motor_levels, get_state}

abbrev pub get_log : ℕ
get_log = 0x00

abbrev pub set_motor_level : ℕ
set_motor_level = 0x01

abbrev pub nack : ℕ
nack = 0xfc

abbrev pub start_marker : ℕ
start_marker = 0xfe

abbrev pub end_marker : ℕ
end_marker = 0xff

abbrev pub android_buffer_length_in : ℕ
android_buffer_length_in = 2

-- `memset(&incoming_packet_from_android, 0, ...)` and `memset(&rp2040_state_, 0, ...)`
abbrev pub zero_incoming : IncomingPacketFromAndroid
zero_incoming = record { start_marker = 0; packet_type = 0; payload = 0 ∷ 0 ∷ []; end_marker = 0 }

abbrev pub zero_state : Rp2040State
zero_state = record {
  control_left = 0;
  control_right = 0;
  fault_left = 0;
  fault_right = 0;
  encoder_left = 0;
  encoder_right = 0;
  voltage = 0;
  safety_status = 0;
  temperature = 0;
  state_of_health = 0;
  flags = 0;
  max77976_chg_details = 0;
  wireless_charger_attached = 0;
  usb_charger_voltage = 0;
  wireless_charger_vrect = 0;
}

abbrev pub update : (CommState → CommState) → M (Unit {0})
update f = modify (λ w. record w { comm = f w.comm })

unfoldable pub put_bytes : List ℕ → M (Unit {0})
put_bytes [] = pure tt
put_bytes (b ∷ bs) = do call (Event.putchar b); put_bytes bs

-- 29 is `sizeof(rp2040_state_)`.
unfoldable pub serial_comm_manager_init : Rp2040State → M (Unit {0})
serial_comm_manager_init rp2040_state = update (λ c. record c {
  rp2040_state = rp2040_state;
  incoming = record (c.incoming) { start_marker = start_marker; end_marker = end_marker };
  outgoing = record (c.outgoing) {
    start_marker = start_marker;
    end_marker = end_marker;
    data_size = 29;
  };
  outgoing_log = record (c.outgoing_log) {
    start_marker = start_marker;
    packet_type = get_log;
    end_marker = end_marker;
  };
})

-- `for (...) putchar(bytes[i])` over the outgoing packet.
unfoldable pub put_outgoing : M (Unit {0})
put_outgoing = do packet ← gets (λ w. w.comm.outgoing); put_bytes (packet_bytes packet)

-- The caller's `buffer_index` is dead after this call.
unfoldable pub reset_packet_and_send_nack : M (Unit {0})
reset_packet_and_send_nack = do
  update (λ c. record c {
    start_idx = 0xff;
    end_idx = 0xff;
    incoming = zero_incoming;
    outgoing = record (c.outgoing) { packet_type = nack };
  })
  put_outgoing

-- The value of an `int8_t` index, as a 16-bit pattern.
abbrev pub sign_extend : ℕ → ℕ
sign_extend idx = if ltb idx 128 then idx else idx + 0xff00

-- `uint16_t packet_length = end_idx - start_idx`
abbrev pub packet_length : CommState → ℕ
packet_length c = u16 (sign_extend c.end_idx + 2 ^ 16 - sign_extend c.start_idx)

-- `c != PICO_ERROR_TIMEOUT && c == marker`
abbrev pub is_marker : ℕ → Option ℕ → Bool
is_marker marker none = false
is_marker marker (some c) = c == marker

-- How the loop of `get_block` ends.
pub data Ending : Type 0 where
  complete timed_out out_of_fuel : Ending

module _ (hw : Hardware) where
  abbrev pub get_char : M (Option ℕ)
  get_char = ask hw.char_in (Event.getchar_timeout_us 100)

  -- The case `GET_LOG`.
  unfoldable pub send_log : ℕ → M (Unit {0})
  send_log packet_type = do
    update (λ c. record c { outgoing_log = record (c.outgoing_log) { packet_type = packet_type } })
    packet ← gets (λ w. w.comm.outgoing_log)
    call (Event.putchar packet.start_marker)
    call (Event.putchar packet.packet_type)
    rp2040_log_acquire_lock
    data_size ← gets (λ w. Log.rp2040_get_byte_count w.log_buffer)
    update (λ c. record c { outgoing_log = record (c.outgoing_log) { data_size = data_size } })
    call (Event.putchar (bit_and data_size 0xff))
    call (Event.putchar (bit_and (data_size / 2 ^ 8) 0xff))
    flushed ← gets (λ w. Log.rp2040_log_flush w.log_buffer)
    put_bytes flushed.0
    modify (λ w. record w { log_buffer = flushed.1 })
    rp2040_log_release_lock
    call (Event.putchar packet.end_marker)

  -- From the cleared state with the motor levels of the packet, or without any, to the answer.
  unfoldable pub send_state : Rp2040State → M (Unit {0})
  send_state cleared = do
    state ← get_state hw cleared
    update
        (λ c. record c { rp2040_state = state; outgoing = record (c.outgoing) { state = state } })
    put_outgoing

  unfoldable pub set_packet_type : ℕ → M (Unit {0})
  set_packet_type t = update (λ c. record c { outgoing = record (c.outgoing) { packet_type = t } })

  -- The commands are GET_LOG 0, SET_MOTOR_LEVEL 1, RESET_STATE 2 and GET_STATE 3.
  unfoldable pub handle_packet : IncomingPacketFromAndroid → M (Unit {0})
  handle_packet packet =
      if packet.packet_type == get_log
      then send_log packet.packet_type
      else (if packet.packet_type == set_motor_level
          then (do
            set_packet_type packet.packet_type
            let levels = record zero_state {
              control_left = get_or packet.payload 0 0;
              control_right = get_or packet.payload 1 0;
            }
            update (λ c. record c { rp2040_state = levels })
            set_motor_levels levels
            send_state levels)
          else (if packet.packet_type == 0x03
              then (do
                set_packet_type packet.packet_type
                update (λ c. record c { rp2040_state = zero_state })
                send_state zero_state)
              else (if packet.packet_type == 0x02 then pure tt else set_packet_type nack)))

  -- One byte of the frame goes to its place.
  unfoldable pub store_byte : ℕ → ℕ → M (Unit {0})
  store_byte buffer_index c =
      if buffer_index == 0
      then update
          (λ s. record s { incoming = record (s.incoming) { packet_type = bit_and c 0xff } })
      else update (λ s. record s {
        incoming = record (s.incoming) {
          payload = set s.incoming.payload (buffer_index - 1) (bit_and c 0xff);
        };
      })

  -- The `while` loop, with fuel for its rounds.
  unfoldable pub read_packet : ℕ → ℕ → ℕ → M Ending
  read_packet zero i buffer_index = pure out_of_fuel
  read_packet (suc fuel) i buffer_index =
      let rest = read_packet fuel (u8 (i + 1)) (u16 (buffer_index + 1)) in
      if ltb buffer_index (android_buffer_length_in + 1) || i == 100
      then (do
        answer ← get_char
        elim answer [
          | none ↦ do
            rp2040_log hw "Timeout while reading packet. Resetting state.\n" []
            reset_packet_and_send_nack
            pure timed_out
          | some c ↦ do store_byte buffer_index c; rest
        ])
      else pure complete

  -- The end of a frame whose bytes are all there.
  unfoldable pub finish_packet : M (Unit {0})
  finish_packet = do
    answer ← get_char
    if is_marker end_marker answer
        then (do
          length ← gets (λ w. packet_length w.comm)
          if leb 5 length
              then (do
                packet ← gets (λ w. w.comm.incoming)
                handle_packet packet
                update
                    (λ c. record c { start_idx = 0xff; end_idx = 0xff; incoming = zero_incoming }))
              else (do
                rp2040_log hw "Received incomplete packet. Resetting state.\n" []
                reset_packet_and_send_nack))
        else (do
          rp2040_log hw "Received packet with no end marker. Resetting state.\n" []
          reset_packet_and_send_nack)

  -- The rounds of the loop that 3 bytes need, and the test that ends it.
  unfoldable pub get_block : M (Unit {0})
  get_block = do
    answer ← get_char
    if is_marker start_marker answer
        then (do
          update (λ c. record c { start_idx = 0 })
          ending ← read_packet 4 0 0
          elim ending [ complete ↦ finish_packet | timed_out ↦ pure tt | out_of_fuel ↦ pure tt ])
        else pure tt
