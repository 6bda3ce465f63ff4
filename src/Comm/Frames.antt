-- ===== src/Comm/Frames.antt =====
-- src/serial_comm_manager.c: what `get_block` does with the characters that arrive.
use smartphone_robot_firmwar.Base.{
  Option-cases, inl, inr, ℕ, zero, suc, ◌+◌, ◌<◌, false, List, [], ◌∷◌, Option, none, some, bit_and,
  ◌≡◌, refl, ◌∙◌, arith,
}
use smartphone_robot_firmwar.Bits.{bit_and-ones}
use smartphone_robot_firmwar.Board.Sdk.{Event}
use smartphone_robot_firmwar.Board.{
  Outcome, assert_failed, Hardware, World, ok, ◌>>=◌, ◌>>◌, rp2040_log,
}
use smartphone_robot_firmwar.Comm.Packet.{packet_bytes, state_bytes}
use smartphone_robot_firmwar.Comm.{
  Ending, complete, timed_out, out_of_fuel, zero_incoming, update, is_marker, get_block,
  finish_packet, read_packet, store_byte, handle_packet, put_outgoing, put_bytes,
  reset_packet_and_send_nack,
}

-- The history after `n` more calls for a character.
abbrev pub waits : ℕ → List Event → List Event
waits zero t = t
waits (suc n) t = Event.getchar_timeout_us 100 ∷ waits n t

abbrev pub waited : ℕ → World → World
waited n w = record w { trace = waits n w.trace }

byte_kept : (c : ℕ) → c < 256 → bit_and c 0xff ≡ c
byte_kept c h = bit_and-ones c 8 ∙ omega arith

too_many : (n : ℕ) → ¬ (suc (suc (suc n)) < 3)
too_many n h = omega arith

module _ (hw : Hardware) (w : World) where
  -- The answer to the `n`-th call for a character from here.
  abbrev pub char_at : ℕ → Option ℕ
  char_at n = hw.char_in (waits n w.trace)

  -- Where no end index is set and the packet has its two data bytes, a start marker, a command byte, two
  -- data bytes and an end marker are handled as the packet of that command and those data, after 5 calls for
  -- a character; then the packet is cleared and both indices are reset.
  pub get_block-frame :
      (command left right p0 p1 : ℕ)
      → w.comm.end_idx ≡ 0xff
      → w.comm.incoming.payload ≡ p0 ∷ p1 ∷ []
      → command < 256
      → left < 256
      → right < 256
      → char_at 1 ≡ some 0xfe
      → char_at 2 ≡ some command
      → char_at 3 ≡ some left
      → char_at 4 ≡ some right
      → char_at 5 ≡ some 0xff
      → get_block hw w ≡ (
          let packet = record (w.comm.incoming) {
            packet_type = command;
            payload = left ∷ right ∷ [];
          } in
          (handle_packet hw packet >>= λ _.
          update (λ c. record c { start_idx = 0xff; end_idx = 0xff; incoming = zero_incoming }))
            (record w {
              trace = waits 5 w.trace;
              comm = record (w.comm) { start_idx = 0; incoming = packet };
            }))
  unfolding get_block finish_packet read_packet store_byte
  get_block-frame command left right p0 p1 no_end two hc hl hr e1 e2 e3 e4 e5 = simp (
    get_block,
    finish_packet,
    read_packet,
    store_byte,
    ◌>>=◌,
    e1,
    e2,
    e3,
    e4,
    e5,
    no_end,
    two,
    byte_kept command hc,
    byte_kept left hl,
    byte_kept right hr,
  )

  -- The world after `n` characters, with the start of a packet noted.
  abbrev pub begun : ℕ → World
  begun n = record w { trace = waits n w.trace; comm = record (w.comm) { start_idx = 0 } }

  -- A frame whose fifth character is missing or no end marker is logged and answered with the NACK
  -- packet: nothing of it stays behind and no command is carried out.
  pub get_block-no_end :
      (command left right : ℕ)
      → char_at 1 ≡ some 0xfe
      → char_at 2 ≡ some command
      → char_at 3 ≡ some left
      → char_at 4 ≡ some right
      → is_marker 0xff (char_at 5) ≡ false
      → get_block hw w
        ≡ (rp2040_log hw "Received packet with no end marker. Resetting state.\n" []
              >> reset_packet_and_send_nack)
            (begun 5)
  unfolding get_block finish_packet read_packet store_byte reset_packet_and_send_nack rp2040_log
  get_block-no_end command left right e1 e2 e3 e4 e5 = simp (
    get_block, finish_packet, read_packet, store_byte, reset_packet_and_send_nack, ◌>>=◌, e1, e2,
    e3, e4, e5,
  )

  -- A frame that breaks off before its two data bytes are there is logged and answered with the NACK
  -- packet at once, after 2, 3 or 4 calls for a character.
  pub get_block-timeout :
      (received : ℕ) (byte : ℕ → ℕ)
      → received < 3
      → char_at 1 ≡ some 0xfe
      → ((n : ℕ) → n < received → char_at (2 + n) ≡ some (byte n))
      → char_at (2 + received) ≡ none
      → get_block hw w
        ≡ (rp2040_log hw "Timeout while reading packet. Resetting state.\n" []
              >> reset_packet_and_send_nack)
            (begun (2 + received))
  unfolding get_block read_packet store_byte reset_packet_and_send_nack rp2040_log put_outgoing
      put_bytes packet_bytes state_bytes
  get_block-timeout zero byte h e1 some_before e =
      simp (get_block, read_packet, store_byte, reset_packet_and_send_nack, ◌>>=◌, e1, e)
  get_block-timeout (suc zero) byte h e1 some_before e = simp (
    get_block,
    read_packet,
    store_byte,
    reset_packet_and_send_nack,
    ◌>>=◌,
    e1,
    some_before 0 (omega arith),
    e,
  )
  get_block-timeout (suc (suc zero)) byte h e1 some_before e = simp (
    get_block,
    read_packet,
    store_byte,
    reset_packet_and_send_nack,
    ◌>>=◌,
    e1,
    some_before 0 (omega arith),
    some_before 1 (omega arith),
    e,
  )
  get_block-timeout (suc (suc (suc n))) byte h e1 some_before e = elim (too_many n h) [ ]

  -- Anything but a start marker costs one call for a character and changes nothing else.
  get_block-idle : is_marker 0xfe (char_at 1) ≡ false → get_block hw w ≡ ok tt (waited 1 w)
  unfolding get_block
  get_block-idle e = simp (get_block, ◌>>=◌, e)

-- A run of the loop that does not end for want of fuel.
abbrev pub HadFuel : Outcome Ending → Type 0
HadFuel (ok complete w) = Unit
HadFuel (ok timed_out w) = Unit
HadFuel (ok out_of_fuel w) = ⊥
HadFuel (assert_failed w) = Unit

-- The loop that reads a frame ends within four rounds: on every answer of the board it never ends for
-- want of fuel, and with any more fuel it does the same.
pub read_packet-enough :
    (hw : Hardware) (more : ℕ) (w : World)
    → HadFuel (read_packet hw 4 0 0 w)
      × (read_packet hw (suc (suc (suc (suc more)))) 0 0 w ≡ read_packet hw 4 0 0 w)
unfolding read_packet store_byte reset_packet_and_send_nack rp2040_log put_outgoing put_bytes
    packet_bytes state_bytes
read_packet-enough hw more w = (
  elim (Option-cases (char_at hw w 1)) [
    | inl e ↦ rw e tt
    | inr (a, e) ↦ rw e (elim (Option-cases (char_at hw w 2)) [
      | inl e' ↦ rw e' tt
      | inr (b, e') ↦
          rw e' (elim (Option-cases (char_at hw w 3)) [
            | inl e'' ↦ rw e'' tt
            | inr (c, e'') ↦ rw e'' tt
          ])
    ])
  ],
  refl,
)
