-- ===== src/Usb/Laws/Parse.antt =====
-- src/max77958.c: what parse_interrupt_vals makes of a change of the charger type. `UIC_INT` and `CC_INT`
-- point into `return_buf`, which the handler of that change clears and reads into.
use smartphone_robot_firmwar.Base.{
  ℕ, ◌^◌, true, false, List, [], ◌∷◌, map, take, get_or, set, String, ◌==◌, bit_and, bit_or, u8,
  u16, if◌then◌else◌, ◌≡◌, refl, ◌∙◌, Bool-cases, inl, inr,
}
use smartphone_robot_firmwar.Board.Sdk.{Event, i2c0}
use smartphone_robot_firmwar.Board.{Hardware, World, ok, M, pure, ◌>>=◌, rp2040_log}
use smartphone_robot_firmwar.Board.Bus.{BusAcks, after, told, write_acked, read_acked, bind_ok}
use smartphone_robot_firmwar.Usb.Header.{DriverHeader}
use smartphone_robot_firmwar.Usb.Transfer.{
  zeros, fill, write_send_buf, read_return_buf, read_registers, get_interrupt_vals,
}
use smartphone_robot_firmwar.Usb.Status.{log_chgtype, on_chgtype_change}
use smartphone_robot_firmwar.Usb.Irq.{on_bit, parse_interrupt_vals}

-- The world after `len` registers have been read, on a bus that acknowledges.
abbrev requested : DriverHeader → ℕ → ℕ → World → World
requested header reg len w =
    let s = set zeros 0 reg in
    let addr = header.max77958_slave_p1 in
    after
      (after (record w { usb = record (w.usb) { send_buf = s; return_buf = zeros } })
        (Event.i2c_write_timeout_us i2c0 addr (take 1 s) true))
      (Event.i2c_read_timeout_us i2c0 addr len false)

abbrev pub registers_read : Hardware → DriverHeader → ℕ → ℕ → World → World
registers_read hw header reg len w =
    let w1 = requested header reg len w in
    let bytes = map (λ b. u8 b) (hw.read_bytes w1.trace) in
    record w1 { usb = record (w1.usb) { return_buf = fill len bytes zeros } }

-- The byte at an index of `return_buf`.
abbrev pub byte_at : ℕ → World → ℕ
byte_at i w = get_or w.usb.return_buf i 0

abbrev chgtype_text : ℕ → String
chgtype_text chgtype =
    if chgtype == 0
    then "ChgTyp changed to nothing attached\n"
    else if chgtype == 1
    then "ChgTyp changed to SDP, USB cable attached\n"
    else if chgtype == 2
    then "ChgTyp changed to CDP, Charging Downstream Port\n"
    else "ChgTyp changed to DCP, Dedicated charger\n"

second-fill : (bytes : List ℕ) → get_or (fill 1 bytes zeros) 1 0 ≡ 0
unfolding fill
second-fill [] = refl
second-fill (b ∷ bytes) = refl

module _ (hw : Hardware) (header : DriverHeader) where
  -- The world after the handler of the charger type.
  abbrev pub chgtype_read : World → World
  chgtype_read w =
      let w1 = registers_read hw header 0x0a 1 (told hw "chgtype changed\n" [] w) in
      told hw (chgtype_text (bit_and (byte_at 0 w1) 0x03)) [] w1

  log_chgtype_lem :
      (chgtype : ℕ) (w : World)
      → log_chgtype hw header chgtype w ≡ ok tt (told hw (chgtype_text chgtype) [] w)
  unfolding log_chgtype rp2040_log
  log_chgtype_lem chgtype w = elim (Bool-cases (chgtype == 0)) [
    | inl e ↦ rw e refl
    | inr e ↦ rw e (elim (Bool-cases (chgtype == 1)) [
      | inl f ↦ rw f refl
      | inr f ↦ rw f (elim (Bool-cases (chgtype == 2)) [ inl g ↦ rw g refl | inr g ↦ rw g refl ])
    ])
  ]

  -- One test of the parser, off and on.
  on_bit-skip :
      (index mask : ℕ) (handler : M (Unit {0})) (bit return_val : ℕ) (w : World)
      → (bit_and (byte_at index w) mask == 0) ≡ true
      → on_bit hw header index mask handler bit return_val w ≡ ok return_val w
  unfolding on_bit
  on_bit-skip index mask handler bit return_val w e = rw e refl

  on_bit-run :
      (index mask : ℕ) (handler : M (Unit {0})) (bit return_val : ℕ) (w w' : World)
      → (bit_and (byte_at index w) mask == 0) ≡ false
      → handler w ≡ ok tt w'
      → on_bit hw header index mask handler bit return_val w
        ≡ ok (u16 (bit_or return_val (2 ^ bit))) w'
  unfolding on_bit
  on_bit-run index mask handler bit return_val w w' e h =
      rw e (bind_ok handler (λ _. pure (u16 (bit_or return_val (2 ^ bit)))) w tt w' h)

  module _ (acks : BusAcks hw) where
    read_registers_lem :
        (reg len : ℕ) (w : World)
        → read_registers hw header reg len w ≡ ok tt (registers_read hw header reg len w)
    unfolding read_registers write_send_buf read_return_buf
    read_registers_lem reg len w = simp (
      read_registers,
      write_send_buf,
      read_return_buf,
      ◌>>=◌,
      write_acked hw acks,
      read_acked hw acks,
    )

    on_chgtype_change_lem : (w : World) → on_chgtype_change hw header w ≡ ok tt (chgtype_read w)
    unfolding on_chgtype_change rp2040_log
    on_chgtype_change_lem w =
        bind_ok (read_registers hw header 0x0a 1) _ (told hw "chgtype changed\n" [] w) tt _
          (read_registers_lem 0x0a 1 (told hw "chgtype changed\n" [] w))
        ∙ log_chgtype_lem _ _

    -- The CC interrupt byte is zero after it.
    cc_cleared :
        (mask : ℕ) (w : World)
        → bit_and 0 mask ≡ 0
        → (bit_and (byte_at 1 (chgtype_read w)) mask == 0) ≡ true
    cc_cleared mask w e = rw (second-fill _, e) refl

    -- On a bus that acknowledges: when the interrupt registers report a change of the charger type, but
    -- no command response, power source or PD message, parse_interrupt_vals returns 8, the bit of the
    -- charger type alone, whatever the CC interrupt register reported: its four bits are looked for in
    -- the buffer that the handler of the charger type has cleared, so none of their handlers is run.
    pub parse_interrupt_vals-chgtype :
        (w : World)
        → (bit_and (byte_at 0 (registers_read hw header header.reg_uic_int 4 w)) 0x80 == 0) ≡ true
        → (bit_and (byte_at 2 (registers_read hw header header.reg_uic_int 4 w)) 0x40 == 0) ≡ true
        → (bit_and (byte_at 2 (registers_read hw header header.reg_uic_int 4 w)) 0x80 == 0) ≡ true
        → (bit_and (byte_at 0 (registers_read hw header header.reg_uic_int 4 w)) 0x02 == 0) ≡ false
        → parse_interrupt_vals hw header w
          ≡ ok 8 (chgtype_read (registers_read hw header header.reg_uic_int 4 w))
    unfolding parse_interrupt_vals get_interrupt_vals
    parse_interrupt_vals-chgtype w no_response no_source no_message changed =
        bind_ok (get_interrupt_vals hw header) _ w tt w0 (read_registers_lem header.reg_uic_int 4 w)
        ∙ bind_ok (on_bit hw header 0 0x80 _ 0 0) _ w0 0 w0
            (on_bit-skip 0 0x80 _ 0 0 w0 no_response)
        ∙ bind_ok (on_bit hw header 2 0x40 _ 1 0) _ w0 0 w0 (on_bit-skip 2 0x40 _ 1 0 w0 no_source)
        ∙ bind_ok (on_bit hw header 2 0x80 _ 2 0) _ w0 0 w0 (on_bit-skip 2 0x80 _ 2 0 w0 no_message)
        ∙ bind_ok (on_bit hw header 0 0x02 _ 3 0) _ w0 8 w1
            (on_bit-run 0 0x02 _ 3 0 w0 w1 changed (on_chgtype_change_lem w0))
        ∙ bind_ok (on_bit hw header 1 0x01 _ 4 8) _ w1 8 w1
            (on_bit-skip 1 0x01 _ 4 8 w1 (cc_cleared 0x01 w0 refl))
        ∙ bind_ok (on_bit hw header 1 0x02 _ 5 8) _ w1 8 w1
            (on_bit-skip 1 0x02 _ 5 8 w1 (cc_cleared 0x02 w0 refl))
        ∙ bind_ok (on_bit hw header 1 0x04 _ 6 8) _ w1 8 w1
            (on_bit-skip 1 0x04 _ 6 8 w1 (cc_cleared 0x04 w0 refl))
        ∙ bind_ok (on_bit hw header 1 0x08 _ 7 8) _ w1 8 w1
            (on_bit-skip 1 0x08 _ 7 8 w1 (cc_cleared 0x08 w0 refl))
      where
        w0 : World
        w0 = registers_read hw header header.reg_uic_int 4 w

        w1 : World
        w1 = chgtype_read w0
