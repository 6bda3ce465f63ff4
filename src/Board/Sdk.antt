-- ===== src/Board/Sdk.antt =====
-- What the firmware asks of the board through the Pico SDK, as events, and the entries of its queues.
use smartphone_robot_firmwar.Base.{ℕ, ℤ, Bool, List, String}

-- `i2c0` and `i2c1`.
pub data I2c : Type 0 where
  i2c0 i2c1 : I2c

-- The functions whose addresses the drivers put into `call_queue` or `opcode_queue`.
pub data EntryFunc : Type 0 where
  drv8830_fault_handler : EntryFunc
  drv8830_test_response : EntryFunc
  drv8830_scope_set_controls : EntryFunc
  bq27742_g1_parse_interrupt_vals : EntryFunc
  ncp3901_on_wireless_charger_attached : EntryFunc
  ncp3901_on_wireless_charger_detached : EntryFunc
  ncp3901_test_response : EntryFunc
  max77976_parse_interrupt_vals : EntryFunc
  max77976_test_response : EntryFunc
  max77958_parse_interrupt_vals : EntryFunc
  max77958_test_response : EntryFunc
  max77958_pd_msg_response : EntryFunc
  gpio_set customer_config_write : EntryFunc
  bc_ctrl1_read bc_ctrl2_read control1_read cc_ctrl1_read cc_ctrl4_read : EntryFunc
  gpio_control_read gpio0_gpio1_adc_read snk_pdo_request customer_config_read : EntryFunc
  stop_core1 : EntryFunc

-- `queue_entry_t`; the data are pin numbers and packed bytes, never negative.
pub record QueueEntry : Type 0 where
  pub func : EntryFunc
  pub arg : ℕ

-- One call of the SDK. A call that answers is recorded before its answer. `setup` is a call, by its
-- name and numbers, that only prepares the board and answers nothing.
pub data Event : Type 0 where
  i2c_write_timeout_us : I2c → ℕ → List ℕ → Bool → Event
  i2c_read_timeout_us : I2c → ℕ → ℕ → Bool → Event
  i2c_write_blocking : I2c → ℕ → List ℕ → Bool → Event
  i2c_read_blocking : I2c → ℕ → ℕ → Bool → Event
  sleep_ms : ℕ → Event
  putchar : ℕ → Event
  getchar_timeout_us : ℕ → Event
  gpio_init : ℕ → Event
  gpio_put : ℕ → ℕ → Event
  gpio_set_dir : ℕ → Bool → Event
  gpio_pull_up : ℕ → Event
  gpio_disable_pulls : ℕ → Event
  gpio_set_irq_enabled : ℕ → ℕ → Bool → Event
  gpio_acknowledge_irq : ℕ → ℕ → Event
  gpio_get : ℕ → Event
  adc_gpio_init : ℕ → Event
  adc_select_input : ℕ → Event
  adc_read : Event
  quadrature_encoder_get_count : ℕ → Event
  queue_try_add : QueueEntry → Event
  opcode_queue_init : Event
  opcode_queue_try_add : QueueEntry → Event
  opcode_queue_try_remove : Event
  opcode_queue_get_level : Event
  results_queue_try_add : EntryFunc → ℕ → Event
  call_queue_remove_blocking : Event
  get_absolute_time : Event
  results_queue_is_empty : Event
  results_queue_remove_blocking : Event
  call_queue_is_empty : Event
  setup : String → List ℕ → Event
  mutex_enter_blocking : Event
  mutex_exit : Event

-- An argument of a format string.
pub data Arg : Type 0 where
  num : ℕ → Arg
  int : ℤ → Arg
  str : String → Arg
