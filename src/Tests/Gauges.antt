-- ===== src/Tests/Gauges.antt =====
-- The gauge at concrete pins, blocks and answers.
use smartphone_robot_firmwar.Base.{
  ℕ, List, [], ◌∷◌, true, false, ltb, ◌&&◌, ◌||◌, ◌==◌, if◌then◌else◌, ◌≡◌, ◌≢◌, ◌⊎◌, refl, arith,
  get_or, length,
}
use smartphone_robot_firmwar.Bits.{testbit}
use smartphone_robot_firmwar.Board.Sdk.{Event, EntryFunc, i2c0, Arg}
use smartphone_robot_firmwar.Board.{World, Outcome, ok, assert_failed, rp2040_log}
use smartphone_robot_firmwar.Board.Bus.{told}
use smartphone_robot_firmwar.Gauge.Irq.{bq27742_g1_on_interrupt}
use smartphone_robot_firmwar.Gauge.DataFlash.{
  bq27742_g1_data_flash_checksum, bq27742_g1_read_data_flash_block,
  bq27742_g1_write_data_flash_block,
}
use smartphone_robot_firmwar.Gauge.HostConfig.{
  word_at, byte_order, configured, configure_block, new_pack_config, new_pack_config_c,
}
use smartphone_robot_firmwar.Gauge.Laws.Pending.{OneEdge, falling_edge_lem, irq_enabled}
use smartphone_robot_firmwar.Gauge.Laws.Checksum.{
  reading, selecting, checksum-detects, bq27742_g1_read_data_flash_block_lem,
  bq27742_g1_write_data_flash_block_lem,
}
use smartphone_robot_firmwar.Gauge.Laws.Config.{
  new_pack_config_bits, configured_lem, configure_block-configured,
}
use smartphone_robot_firmwar.Tests.Scenario.{board, acks, start}

-- The falling edge of pin 7 is enabled.
abbrev armed : World
armed = start (Event.gpio_set_irq_enabled 7 4 true ∷ [])

armed-OneEdge : OneEdge armed
unfolding irq_enabled
armed-OneEdge = (refl, refl)

falling_edge_lem_example :
    bq27742_g1_on_interrupt (board []) 7 4 (start [])
    ≡ ok tt
        (record (start (
          Event.queue_try_add (record { func = EntryFunc.bq27742_g1_parse_interrupt_vals; arg = 0 })
          ∷ Event.gpio_set_irq_enabled 7 8 true
          ∷ Event.gpio_set_irq_enabled 7 4 false
          ∷ Event.gpio_acknowledge_irq 7 4
          ∷ [])) {
            gauge = record { gpio_interrupt = 7; interrupt_pending = true; temperature = 0 };
          })
falling_edge_lem_example = falling_edge_lem (board []) (start []) (λ h. refl)

checksum-detects_example :
    bq27742_g1_data_flash_checksum (1 ∷ 2 ∷ 3 ∷ [])
    ≢ bq27742_g1_data_flash_checksum (1 ∷ 7 ∷ 3 ∷ [])
checksum-detects_example =
    checksum-detects (1 ∷ []) (3 ∷ []) 2 7 (omega arith) (omega arith) (omega arith) (omega arith)

abbrev trace_of : {A : Type 0} → Outcome A → List Event
trace_of (ok a w) = w.trace
trace_of (assert_failed w) = w.trace

-- The checksum register answers 0x21 where the two bytes have the checksum 0x9b.
abbrev flash_read : List Event
flash_read = reading 0x60 1 (reading 0x40 32 (selecting 64 0 []))

bq27742_g1_read_data_flash_block_lem_example :
    bq27742_g1_read_data_flash_block (board []) 64 0 (start []) ≡ (
      let calculated = bq27742_g1_data_flash_checksum (0x21 ∷ 0x43 ∷ []) in
      if 0x21 == calculated
      then ok (true, 0x21 ∷ 0x43 ∷ []) (start flash_read)
      else ok
          (false, 0x21 ∷ 0x43 ∷ [])
          (told
            (board [])
            "ERROR: BQ27742-G1 data flash checksum mismatch read=0x%02x calculated=0x%02x\n"
            (Arg.num 0x21 ∷ Arg.num calculated ∷ [])
            (start flash_read)))
bq27742_g1_read_data_flash_block_lem_example =
    bq27742_g1_read_data_flash_block_lem (board []) (acks []) 64 0 (start [])

bq27742_g1_write_data_flash_block_lem_example :
    bq27742_g1_write_data_flash_block (board []) 64 0 (1 ∷ 2 ∷ []) (start [])
    ≡ ok tt (
        start (
          Event.i2c_write_timeout_us i2c0 0x55
            (0x60 ∷ bq27742_g1_data_flash_checksum (1 ∷ 2 ∷ []) ∷ [])
            false
          ∷ Event.i2c_write_timeout_us i2c0 0x55 (0x40 ∷ 1 ∷ 2 ∷ []) false
          ∷ selecting 64 0 []))
bq27742_g1_write_data_flash_block_lem_example =
    bq27742_g1_write_data_flash_block_lem (board []) (acks []) 64 0 (1 ∷ 2 ∷ []) (start [])

new_pack_config_bits_example :
    (testbit (new_pack_config 0x6123) 13 ≡ (
      ltb 13 16
      && (if 13 == 12 then true else if 13 == 13 || 13 == 14 then false else testbit 0x6123 13)))
    × (testbit (new_pack_config_c 0x55) 13
        ≡ (ltb 13 8 && (if 13 == 0 then false else testbit 0x55 13)))
new_pack_config_bits_example = new_pack_config_bits 0x6123 0x55 13

-- A block whose bytes stand in little-endian order.
abbrev block : List ℕ
block = 0x23 ∷ 0x61 ∷ 0 ∷ 0x55 ∷ []

configured_lem_example :
    (let o = byte_order 0x6123 block in
      (word_at (configured o block) o ≡ new_pack_config (word_at block o))
      × (get_or (configured o block) 3 0 ≡ new_pack_config_c (get_or block 3 0))
      × (length (configured o block) ≡ length block)
      × ((get_or (configured o block) 2 0 ≡ get_or block 2 0)
          ⊎ (◌≡◌ {A = ℕ} 2 0)
          ⊎ (◌≡◌ {A = ℕ} 2 1)
          ⊎ (◌≡◌ {A = ℕ} 2 3)))
configured_lem_example = configured_lem 0x6123 block 2 (omega arith)

configure_block-configured_example :
    (let o = byte_order 0x6123 block in
      configure_block (board []) (word_at (configured o block) o) (configured o block) (start [])
      ≡ rp2040_log (board []) "BQ27742-G1 RC2 host interrupts already configured\n" [] (start []))
configure_block-configured_example =
    configure_block-configured (board []) 0x6123 block (start []) (omega arith)
