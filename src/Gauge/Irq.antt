-- ===== src/Gauge/Irq.antt =====
-- src/bq27742_g1.c: the interrupt of the gauge. One edge is handled at a time: while a parse is pending
-- the pin waits for the other edge.
use smartphone_robot_firmwar.Base.{
  ℕ, Bool, true, false, ◌&&◌, [], ◌∷◌, String, ◌==◌, not, if◌then◌else◌,
}
use smartphone_robot_firmwar.Board.Sdk.{Event, Arg, EntryFunc}
use smartphone_robot_firmwar.Board.{
  Hardware, M, pure, ◌>>=◌, ◌>>◌, modify, gets, call, when, rp2040_log, gpio_get,
}
use smartphone_robot_firmwar.Board.Queue.{call_queue_try_add_nonblocking}
use smartphone_robot_firmwar.Gauge.Transfer.{
  bq27742_g1_read_bytes, bq27742_g1_control, bq27742_g1_clear_shutdown, little_endian,
}
use smartphone_robot_firmwar.Gauge.Readings.{
  is_set, isd_mask, tdd_mask, otc_mask, otd_mask, ovp_mask, uvp_mask, bathi_mask, batlow_mask,
  imax_mask, soc1_mask,
}
use smartphone_robot_firmwar.Gauge.HostConfig.{bq27742_g1_configure_host_interrupts}

-- `GPIO_IRQ_EDGE_FALL`
abbrev pub bq27742_g1_irq_mask : ℕ
bq27742_g1_irq_mask = 4

-- `GPIO_IRQ_EDGE_RISE`
abbrev pub bq27742_g1_deassert_irq_mask : ℕ
bq27742_g1_deassert_irq_mask = 8

abbrev set_pending : Bool → M (Unit {0})
set_pending b = modify (λ w. record w { gauge = record (w.gauge) { interrupt_pending = b } })

unfoldable pub bq27742_g1_rearm_assert_irq : M (Unit {0})
bq27742_g1_rearm_assert_irq = do
  set_pending false
  pin ← gets (λ w. w.gauge.gpio_interrupt)
  call (Event.gpio_set_irq_enabled pin bq27742_g1_deassert_irq_mask false)
  call (Event.gpio_set_irq_enabled pin bq27742_g1_irq_mask true)

module _ (hw : Hardware) where
  -- `if (gpio_get(_gpio_interrupt)) bq27742_g1_rearm_assert_irq();`
  unfoldable pub rearm_if_high : M (Unit {0})
  unfolding bq27742_g1_rearm_assert_irq
  rearm_if_high = do
    pin ← gets (λ w. w.gauge.gpio_interrupt)
    high ← gpio_get hw pin
    when high bq27742_g1_rearm_assert_irq

  unfoldable pub bq27742_g1_queue_parse_interrupt : M (Unit {0})
  unfolding rearm_if_high call_queue_try_add_nonblocking
  bq27742_g1_queue_parse_interrupt = do
    gauge ← gets (λ w. w.gauge)
    if gauge.interrupt_pending then pure tt else (do
      set_pending true
      call (Event.gpio_set_irq_enabled gauge.gpio_interrupt bq27742_g1_irq_mask false)
      call (Event.gpio_set_irq_enabled gauge.gpio_interrupt bq27742_g1_deassert_irq_mask true)
      added ← call_queue_try_add_nonblocking hw EntryFunc.bq27742_g1_parse_interrupt_vals 0
      when (not added) rearm_if_high)

  unfoldable pub bq27742_g1_on_interrupt : ℕ → ℕ → M (Unit {0})
  unfolding bq27742_g1_queue_parse_interrupt
  bq27742_g1_on_interrupt gpio event_mask = do
    pin ← gets (λ w. w.gauge.gpio_interrupt)
    if not (gpio == pin) then pure tt else (do
      when (is_set event_mask bq27742_g1_irq_mask) (do
        call (Event.gpio_acknowledge_irq pin bq27742_g1_irq_mask)
        bq27742_g1_queue_parse_interrupt)
      when (is_set event_mask bq27742_g1_deassert_irq_mask)
          (do call (Event.gpio_acknowledge_irq pin bq27742_g1_deassert_irq_mask); rearm_if_high))

  -- One `if (flags & MASK){ ... }` of the parser.
  unfoldable pub log_if_set : ℕ → ℕ → String → M (Unit {0})
  log_if_set flags mask message = when (is_set flags mask) (rp2040_log hw message [])

  -- `if (flags & BQ27742_G1_IMAX_MASK){ ... }`
  unfoldable pub clear_imax_if_set : ℕ → M (Unit {0})
  clear_imax_if_set flags = when (is_set flags imax_mask) (do
    rp2040_log hw "BQ27742-G1 interrupt: IMAX set, clearing latched interrupt\n" []
    _ ← bq27742_g1_control hw 0x0023
    pure tt)

  -- The log lines of the parser, and the command that clears a latched IMAX.
  unfoldable pub report_interrupt : ℕ → ℕ → M (Unit {0})
  report_interrupt flags safety = do
    log_if_set flags soc1_mask "BQ27742-G1 interrupt: SOC1 set\n"
    log_if_set flags bathi_mask "BQ27742-G1 interrupt: BATHI set\n"
    log_if_set flags batlow_mask "BQ27742-G1 interrupt: BATLOW set\n"
    clear_imax_if_set flags
    log_if_set safety isd_mask "BQ27742-G1 interrupt: ISD set\n"
    log_if_set safety tdd_mask "BQ27742-G1 interrupt: TDD set\n"
    log_if_set safety otc_mask "BQ27742-G1 interrupt: OTC set\n"
    log_if_set safety otd_mask "BQ27742-G1 interrupt: OTD set\n"
    log_if_set safety ovp_mask "BQ27742-G1 interrupt: OVP set\n"
    log_if_set safety uvp_mask "BQ27742-G1 interrupt: UVP set\n"
    when (not (is_set flags 0x3014) && not (is_set safety 0x3f))
        (rp2040_log hw "BQ27742-G1 interrupt: no enabled status bits currently set\n" [])

  unfoldable pub bq27742_g1_parse_interrupt_vals : M ℕ
  bq27742_g1_parse_interrupt_vals = do
    flags_buf ← bq27742_g1_read_bytes hw 0x0a 2
    safety_buf ← bq27742_g1_read_bytes hw 0x1a 2
    let flags = little_endian flags_buf
    let safety = little_endian safety_buf
    pin ← gets (λ w. w.gauge.gpio_interrupt)
    level ← gpio_get hw pin
    rp2040_log hw "BQ27742-G1 interrupt: GPIO%d=%d Flags=0x%04x SafetyStatus=0x%04x\n"
        (Arg.num pin ∷ Arg.num (if level then 1 else 0) ∷ Arg.num flags ∷ Arg.num safety ∷ [])
    report_interrupt flags safety
    rearm_if_high
    pure flags

  unfoldable pub bq27742_g1_init : ℕ → M (Unit {0})
  bq27742_g1_init gpio_interrupt = do
    modify (λ w. record w { gauge = record (w.gauge) { gpio_interrupt = gpio_interrupt } })
    rp2040_log hw "bq27742_g1 init started\n" []
    bq27742_g1_clear_shutdown hw
    bq27742_g1_configure_host_interrupts hw
    call (Event.gpio_init gpio_interrupt)
    call (Event.gpio_put gpio_interrupt 0)
    call (Event.gpio_set_dir gpio_interrupt false)
    call (Event.gpio_disable_pulls gpio_interrupt)
    call (Event.gpio_set_irq_enabled gpio_interrupt bq27742_g1_irq_mask true)
    high ← gpio_get hw gpio_interrupt
    when (not high) (do
      rp2040_log hw "BQ27742-G1 RC2_3V3 already asserted on GPIO%d\n" (Arg.num gpio_interrupt ∷ [])
      bq27742_g1_queue_parse_interrupt)
    rp2040_log hw "bq27742_g1 init finished\n" []
