-- ===== src/Charger/Laws.antt =====
-- src/max77976.c: the set-up of the charger and what its details report.
use smartphone_robot_firmwar.Base.{ℕ, pos, true, false, List, [], ◌∷◌, map, get_or, u8, ◌≡◌, refl}
use smartphone_robot_firmwar.BitOps.{bit_assign, bit_set_range, bitmask_from_x_2_y, bitmask_clear}
use smartphone_robot_firmwar.Board.Sdk.{Event, i2c1, Arg}
use smartphone_robot_firmwar.Board.{Hardware, World, ok, ◌>>=◌, rp2040_log}
use smartphone_robot_firmwar.Board.Bus.{BusAcks, told, write_acked, read_acked}
use smartphone_robot_firmwar.Charger.Details.{max77976_addr}
use smartphone_robot_firmwar.Charger.{
  write_register, max77976_get_interrupt_vals, max77976_set_interrupt_masks, max77976_init,
}

abbrev pub sent : ℕ → ℕ → List Event → List Event
sent register value t =
    Event.i2c_write_timeout_us i2c1 max77976_addr (register ∷ value ∷ []) false ∷ t

-- The history when the interrupts have been read and so cleared.
abbrev pub prepared : ℕ → World → List Event
prepared pin w =
    Event.i2c_read_timeout_us i2c1 max77976_addr 3 false
    ∷ Event.i2c_write_timeout_us i2c1 max77976_addr (0x10 ∷ []) true
    ∷ Event.i2c_write_timeout_us i2c1 max77976_addr (0x11 ∷ 0xbf ∷ 0 ∷ 0 ∷ []) false
    ∷ Event.gpio_set_irq_enabled pin 4 true
    ∷ Event.gpio_pull_up pin
    ∷ Event.gpio_set_dir pin false
    ∷ Event.gpio_put pin 0
    ∷ Event.gpio_init pin
    ∷ w.trace

frequency : bit_assign 0x2 0 1 ≡ 0x00
unfolding bit_assign
frequency = refl

input_limit : bit_set_range 0x89 0 5 0x3b ≡ 0xbb
unfolding bit_set_range bitmask_from_x_2_y bitmask_clear
input_limit = refl

-- On a bus that acknowledges, the set-up of the charger unlocks its protected registers, writes the
-- mode 5 (MODE_CHARGE_BUCK), the charge current 0x19, the switching frequency byte 0 and the input limit
-- byte 0xbb, and locks the registers again, after its pin, its interrupt masks and its interrupts are
-- set up.
pub max77976_init_lem :
    (hw : Hardware) (pin : ℕ) (w : World)
    → BusAcks hw
    → max77976_init hw pin w ≡ (
        let begun =
          told hw "max77976 init started\n" []
            (record w { charger = record (w.charger) { gpio_interrupt = pin } }) in
        let t = prepared pin begun in
        let buf = map (λ b. u8 b) (hw.read_bytes t) in
        let cleared =
          told hw "MAX77976 interrupts vals: 0x10: 0x%02x, 0x11: 0x%02x, 0x12: 0x%02x\n"
            (Arg.num (get_or buf 0 0) ∷ Arg.num (get_or buf 1 0) ∷ Arg.num (get_or buf 2 0) ∷ [])
            (record begun { trace = t }) in
        ok (pos 0) (record cleared {
          trace = sent 0x1c 0x00 (
              sent 0x1f 0xbb
                (sent 0x1e 0x00 (sent 0x18 0x19 (sent 0x16 0x05 (sent 0x1c 0x0c cleared.trace)))));
        }))
unfolding max77976_init max77976_get_interrupt_vals max77976_set_interrupt_masks write_register
    rp2040_log
max77976_init_lem hw pin w acks = simp (
  max77976_init,
  max77976_get_interrupt_vals,
  ◌>>=◌,
  write_acked hw acks,
  read_acked hw acks,
  frequency,
  input_limit,
)
