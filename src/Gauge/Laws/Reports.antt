-- ===== src/Gauge/Laws/Reports.antt =====
-- src/bq27742_g1.c: what the reports of the gauge return to their caller.
use smartphone_robot_firmwar.Base.{ℕ, ◌+◌, ◌*◌, ◌<◌, true, false, List, [], ◌∷◌, u8, ◌≡◌, arith}
use smartphone_robot_firmwar.Bits.{bit_or-high_low}
use smartphone_robot_firmwar.Board.Sdk.{Event, i2c0, Arg}
use smartphone_robot_firmwar.Board.{Hardware, World, ok, ◌>>=◌, rp2040_log}
use smartphone_robot_firmwar.Board.Bus.{BusAcks, told, write_acked, read_acked}
use smartphone_robot_firmwar.Gauge.Transfer.{bq27742_g1_addr, bq27742_g1_read_bytes, little_endian}
use smartphone_robot_firmwar.Gauge.Readings.{bq27742_g1_get_voltage, bq27742_g1_get_temp}

-- The calls that read two bytes from a register, and the bytes that they answer.
abbrev pub reading2 : ℕ → List Event → List Event
reading2 command t =
    Event.i2c_read_timeout_us i2c0 bq27742_g1_addr 2 false
    ∷ Event.i2c_write_timeout_us i2c0 bq27742_g1_addr (command ∷ []) true
    ∷ t

-- A little-endian number of two bytes is their sum.
pub little_endian_lem :
    (low high : ℕ) (rest : List ℕ)
    → low < 256
    → high < 256
    → little_endian (low ∷ high ∷ rest) ≡ high * 256 + low
little_endian_lem low high rest hl hh = rw (bit_or-high_low 8 high low hl) (omega arith)

kept : (b : ℕ) → b < 256 → u8 b ≡ b
kept b h = omega arith

-- On a bus that acknowledges, where the gauge answers with the bytes `low` and `high`, the voltage is
-- `256 * high + low`, and it is logged.
pub bq27742_g1_get_voltage_lem :
    (hw : Hardware) (low high : ℕ) (w : World)
    → BusAcks hw
    → low < 256
    → high < 256
    → hw.read_bytes (reading2 0x08 w.trace) ≡ low ∷ high ∷ []
    → bq27742_g1_get_voltage hw w ≡ (
        let voltage = high * 256 + low in
        ok voltage (
          told hw "Voltage: %d\n"
            (Arg.num voltage ∷ [])
            (record w { trace = reading2 0x08 w.trace })))
unfolding bq27742_g1_get_voltage bq27742_g1_read_bytes rp2040_log
bq27742_g1_get_voltage_lem hw low high w acks hl hh e = simp (
  bq27742_g1_get_voltage,
  ◌>>=◌,
  write_acked hw acks,
  read_acked hw acks,
  e,
  kept low hl,
  kept high hh,
  little_endian_lem low high [] hl hh,
)

-- On a bus that acknowledges, the temperature that is kept, logged and returned is 0, whatever the
-- gauge answers.
pub bq27742_g1_get_temp_lem :
    (hw : Hardware) (w : World)
    → BusAcks hw
    → bq27742_g1_get_temp hw w
      ≡ ok 0 (
          told hw "Temperature: %d\n" (Arg.num 0 ∷ []) (record w {
            trace = reading2 0x06 w.trace;
            gauge = record (w.gauge) { temperature = 0 };
          }))
unfolding bq27742_g1_get_temp bq27742_g1_read_bytes rp2040_log
bq27742_g1_get_temp_lem hw w acks =
    simp (bq27742_g1_get_temp, ◌>>=◌, write_acked hw acks, read_acked hw acks)
