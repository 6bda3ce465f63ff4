-- ===== src/Wireless.antt =====
-- src/ncp3901.c and src/STWLC38JRM.c: the power multiplexer with the wireless charger behind it.
pub mod State
pub mod SelfTest
pub mod Laws
use smartphone_robot_firmwar.Base.{
  ℕ, ℤ, pos, Bool, true, false, List, [], ◌∷◌, String, bit_and, bit_or, ◌==◌, not, if◌then◌else◌,
  u16, get_or,
}
use smartphone_robot_firmwar.Board.Sdk.{Event, EntryFunc, i2c0, Arg}
use smartphone_robot_firmwar.Board.{
  Hardware, World, M, pure, ◌>>=◌, ◌>>◌, modify, gets, call, ask, when, rp2040_log,
}
use smartphone_robot_firmwar.Board.I2cRetry.{i2c_write_error_handling, i2c_read_error_handling}
use smartphone_robot_firmwar.Board.Queue.{call_queue_try_add}
use smartphone_robot_firmwar.Wireless.State.{WirelessState}

-- `GPIO_IRQ_EDGE_FALL`
abbrev pub edge_fall : ℕ
edge_fall = 4

-- `GPIO_IRQ_EDGE_RISE`
abbrev pub edge_rise : ℕ
edge_rise = 8

abbrev set_attached : Bool → M (Unit {0})
set_attached b =
    modify (λ w. record w { wireless = record (w.wireless) { wireless_charger_attached = b } })

module _ (hw : Hardware) where
  -- One branch of the interrupt: the edge is acknowledged, and `func` queued.
  unfoldable pub edge_branch : ℕ → ℕ → EntryFunc → M (Unit {0})
  edge_branch gpio edge func = do
    call (Event.gpio_acknowledge_irq gpio edge)
    call_queue_try_add hw func 0
    started ← gets (λ w. w.wireless.test_ncp3901_started)
    when started (call_queue_try_add hw EntryFunc.ncp3901_test_response 1)

  unfoldable pub ncp3901_on_wireless_charger_interrupt : ℕ → ℕ → M (Unit {0})
  unfolding edge_branch
  ncp3901_on_wireless_charger_interrupt gpio event_mask =
      if not (bit_and event_mask edge_rise == 0)
      then edge_branch gpio edge_rise EntryFunc.ncp3901_on_wireless_charger_detached
      else (when (not (bit_and event_mask edge_fall == 0))
          (edge_branch gpio edge_fall EntryFunc.ncp3901_on_wireless_charger_attached))

  unfoldable pub ncp3901_on_wireless_charger_attached : M ℤ
  ncp3901_on_wireless_charger_attached = do
    rp2040_log hw "Wireless power available\n" []
    set_attached true
    pure (pos 0)

  unfoldable pub ncp3901_on_wireless_charger_detached : M ℤ
  ncp3901_on_wireless_charger_detached = do
    rp2040_log hw "Wireless power unavailable\n" []
    set_attached false
    pure (pos 0)

  unfoldable pub ncp3901_adc0 : M ℕ
  ncp3901_adc0 = do
    call (Event.adc_select_input 0)
    result ← ask hw.adc_value Event.adc_read
    pure (u16 result)

  unfoldable pub stwlc38jrm_adc1 : M ℕ
  stwlc38jrm_adc1 = do
    call (Event.adc_select_input 1)
    result ← ask hw.adc_value Event.adc_read
    pure (u16 result)

unfoldable pub ncp3901_wireless_charger_attached : M Bool
ncp3901_wireless_charger_attached = gets (λ w. w.wireless.wireless_charger_attached)

unfoldable pub ncp3901_test_response : M ℤ
ncp3901_test_response = do
  modify (λ w. record w { wireless = record (w.wireless) { test_ncp3901_completed = true } })
  pure (pos 0)

-- The buffers that the function clears are its own; STWLC38_ADDR is 0x61.
module _ (hw : Hardware) where
  unfoldable pub stwlc38_get_ept_reasons : M (Unit {0})
  stwlc38_get_ept_reasons = do
    i2c_write_error_handling hw i2c0 0x61 (0x01 ∷ 0x27 ∷ []) true
    bytes ← i2c_read_error_handling hw i2c0 0x61 3 false
    rp2040_log hw "STWLC38 EPT Reason: 0x0127: 0x%02x, 0x0128: 0x%02x, 0x0129: 0x%02x"
        (Arg.num (get_or bytes 0 0) ∷ Arg.num (get_or bytes 1 0) ∷ Arg.num (get_or bytes 2 0) ∷ [])

-- The pins are GPIO numbers below 30, so `int8_t` holds them.
unfoldable pub ncp3901_init : ℕ → ℕ → M (Unit {0})
ncp3901_init gpio_wireless_charger gpio_otg = do
  modify (λ w. record w {
    wireless = record (w.wireless) {
      gpio_wireless_charger = gpio_wireless_charger;
      gpio_otg = gpio_otg;
    };
  })
  call (Event.gpio_init gpio_wireless_charger)
  call (Event.gpio_put gpio_wireless_charger 0)
  call (Event.gpio_set_dir gpio_wireless_charger false)
  call (Event.gpio_pull_up gpio_wireless_charger)
  call (Event.gpio_set_irq_enabled gpio_wireless_charger (bit_or edge_rise edge_fall) true)
  call (Event.gpio_init gpio_otg)
  call (Event.gpio_put gpio_otg 0)
  call (Event.gpio_set_dir gpio_otg true)
  call (Event.adc_gpio_init 26)

unfoldable pub stwlc38jrm_init : ℕ → ℕ → M (Unit {0})
stwlc38jrm_init enable_pin vrect_pin = do
  call (Event.gpio_init enable_pin)
  call (Event.gpio_set_dir enable_pin true)
  call (Event.gpio_put enable_pin 1)
  call (Event.sleep_ms 100)
  call (Event.gpio_put enable_pin 0)
  call (Event.adc_gpio_init vrect_pin)

unfoldable pub stwlc38jrm_shutdown : ℕ → M (Unit {0})
stwlc38jrm_shutdown enable_pin = call (Event.gpio_put enable_pin 0)
