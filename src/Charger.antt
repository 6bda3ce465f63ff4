-- ===== src/Charger.antt =====
-- src/max77976.c and include/max77976.h: the battery charger on `i2c1`. A `uint8_t` local array that
-- the code clears and fills is the list of the bytes sent.
pub mod State
pub mod Details
pub mod SelfTest
pub mod Laws
use smartphone_robot_firmwar.Base.{
  ℕ, ◌+◌, ◌*◌, ◌^◌, ℤ, pos, Bool, true, false, List, [], ◌∷◌, String, bit_and, bit_or, ◌==◌, not,
  if◌then◌else◌, get_or,
}
use smartphone_robot_firmwar.BitOps.{bit_assign, bit_set_range}
use smartphone_robot_firmwar.Board.Sdk.{Event, I2c, i2c1, Arg, EntryFunc}
use smartphone_robot_firmwar.Board.{
  Hardware, World, M, pure, ◌>>=◌, ◌>>◌, modify, gets, call, when, rp2040_log,
}
use smartphone_robot_firmwar.Board.I2cRetry.{i2c_write_error_handling, i2c_read_error_handling}
use smartphone_robot_firmwar.Board.Queue.{call_queue_try_add}
use smartphone_robot_firmwar.Charger.State.{ChargerState}
use smartphone_robot_firmwar.Charger.Details.{max77976_addr}

-- `GPIO_IRQ_EDGE_FALL`
abbrev pub interrupt_mask : ℕ
interrupt_mask = 4

-- One `if (buf[0] & BIT)` of the parser, with the two lines of its inner `if (buf[2] & BIT)`.
pub record InterruptRow : Type 0 where
  pub bit : ℕ
  pub seen : String
  pub on : String
  pub off : String

abbrev pub interrupt_rows : List InterruptRow
interrupt_rows =
    record {
      bit = 7;
      seen = "MAX77976: AICL_I interrupt detected.\n";
      on = "MAX77976: AICL mode.\n";
      off = "MAX77976: AICL mode not detected.\n";
    }
    ∷ record {
      bit = 6;
      seen = "MAX77976: CHGIN_I interrupt detected.\n";
      on = "MAX77976: CHGIN input is valid.\n";
      off = "MAX77976: CHGIN input is not valid.\n";
    }
    ∷ record {
      bit = 5;
      seen = "MAX77976: INLIM_I interrupt detected.\n";
      on =
          "MAX77976: The CHGIN input current has been reaching the current limit for at least 30ms.\n";
      off = "MAX77976: The CHGIN input current has not reached the current limit.\n";
    }
    ∷ record {
      bit = 4;
      seen = "MAX77976: CHG_I interrupt detected.\n";
      on = "MAX77976: The charger has suspended charging or TREG = 1.\n";
      off = "MAX77976: The charger is okay or the charger is off.\n";
    }
    ∷ record {
      bit = 3;
      seen = "MAX77976: BAT_I interrupt detected.\n";
      on = "MAX77976: The battery has an issue or the charger has been suspended.\n";
      off = "MAX77976: The battery is okay.\n";
    }
    ∷ record {
      bit = 1;
      seen = "MAX77976: DISQBAT_I interrupt detected.\n";
      on = "MAX77976: DISQBAT is high and QBATT is disabled.\n";
      off = "MAX77976: DISQBAT is low and QBATT is not disabled.\n";
    }
    ∷ record {
      bit = 0;
      seen = "MAX77976: BYP_I interrupt detected.\n";
      on = "MAX77976: Something powered by the bypass node has hit current limit.\n";
      off = "MAX77976: The bypass node is okay.\n";
    }
    ∷ []

unfoldable pub max77976_test_response : M ℤ
max77976_test_response = do
  modify (λ w. record w { charger = record (w.charger) { test_max77976_completed = true } })
  pure (pos 0)

module _ (hw : Hardware) where
  unfoldable pub max77976_on_battery_charger_interrupt : ℕ → ℕ → M (Unit {0})
  max77976_on_battery_charger_interrupt gpio event_mask =
      when (not (bit_and event_mask interrupt_mask == 0)) (do
        charger ← gets (λ w. w.charger)
        call (Event.gpio_acknowledge_irq charger.gpio_interrupt interrupt_mask)
        call_queue_try_add hw EntryFunc.max77976_parse_interrupt_vals 0
        started ← gets (λ w. w.charger.test_max77976_started)
        when started (call_queue_try_add hw EntryFunc.max77976_test_response 1))

  -- The `memset` in front, `sizeof MAX77976_INT_BUF_LEN` = 4 bytes over an array of 3, is not modelled.
  unfoldable pub max77976_get_interrupt_vals : M (List ℕ)
  max77976_get_interrupt_vals = do
    i2c_write_error_handling hw i2c1 max77976_addr (0x10 ∷ []) true
    buf ← i2c_read_error_handling hw i2c1 max77976_addr 3 false
    rp2040_log hw "MAX77976 interrupts vals: 0x10: 0x%02x, 0x11: 0x%02x, 0x12: 0x%02x\n"
        (Arg.num (get_or buf 0 0) ∷ Arg.num (get_or buf 1 0) ∷ Arg.num (get_or buf 2 0) ∷ [])
    pure buf

  unfoldable pub log_rows : ℕ → ℕ → List InterruptRow → M (Unit {0})
  log_rows interrupts okays [] = pure tt
  log_rows interrupts okays (row ∷ rows) = do
    when (not (bit_and interrupts (2 ^ row.bit) == 0)) (do
      rp2040_log hw row.seen []
      rp2040_log hw (if not (bit_and okays (2 ^ row.bit) == 0) then row.on else row.off) [])
    log_rows interrupts okays rows

  unfoldable pub max77976_parse_interrupt_vals : M ℕ
  max77976_parse_interrupt_vals = do
    buf ← max77976_get_interrupt_vals
    log_rows (get_or buf 0 0) (get_or buf 2 0) interrupt_rows
    when (get_or buf 0 0 == 0) (
        modify
          (λ w. record w { charger = record (w.charger) { test_max77976_interrupt_bool = true } }))
    pure (bit_or (get_or buf 1 0 * 2 ^ 8) (get_or buf 0 0))

  unfoldable pub max77976_set_interrupt_masks_all_masked : M (Unit {0})
  max77976_set_interrupt_masks_all_masked =
      i2c_write_error_handling hw i2c1 max77976_addr (0x11 ∷ 0xff ∷ 0 ∷ 0 ∷ []) false

  -- Every bit but that of CHGIN.
  unfoldable pub max77976_set_interrupt_masks : M (Unit {0})
  max77976_set_interrupt_masks =
      i2c_write_error_handling hw i2c1 max77976_addr (0x11 ∷ 0xbf ∷ 0 ∷ 0 ∷ []) false

  -- `buf[0] = register; buf[1] = value; i2c_write_error_handling(..., buf, 2, false)`
  unfoldable pub write_register : ℕ → ℕ → M (Unit {0})
  write_register register value =
      i2c_write_error_handling hw i2c1 max77976_addr (register ∷ value ∷ []) false

  unfoldable pub max77976_init : ℕ → M ℤ
  max77976_init gpio_interrupt = do
    modify (λ w. record w { charger = record (w.charger) { gpio_interrupt = gpio_interrupt } })
    rp2040_log hw "max77976 init started\n" []
    call (Event.gpio_init gpio_interrupt)
    call (Event.gpio_put gpio_interrupt 0)
    call (Event.gpio_set_dir gpio_interrupt false)
    call (Event.gpio_pull_up gpio_interrupt)
    call (Event.gpio_set_irq_enabled gpio_interrupt interrupt_mask true)
    max77976_set_interrupt_masks
    _ ← max77976_get_interrupt_vals
    write_register 0x1c 0x0c
    write_register 0x16 0x5
    write_register 0x18 0x19
    write_register 0x1e (bit_assign 0x2 0 1)
    write_register 0x1f (bit_set_range 0x89 0 5 0x3b)
    write_register 0x1c 0x00
    pure (pos 0)
