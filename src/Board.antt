-- ===== src/Board.antt =====
-- The board under the firmware: what the Pico SDK answers, the static memory of the modules, and the
-- monad in which the drivers run. `assert(false)` stops the firmware, as it does in the Debug build
-- that CMakeLists.txt selects.
pub mod Sdk
pub mod I2cRetry
pub mod Retries
pub mod Queue
pub mod Wait
pub mod Waits
pub mod Gives
pub mod Bus
pub mod Keeps
pub mod Calm
use smartphone_robot_firmwar.Base.{
  ℕ, ◌%◌, ℤ, Bool, true, false, List, [], ◌∷◌, map, String, Option, none, some, if◌then◌else◌, u8,
}
use smartphone_robot_firmwar.Board.Sdk.{Event, I2c, Arg, QueueEntry, EntryFunc}
use smartphone_robot_firmwar.Log
use smartphone_robot_firmwar.Log.{CircularBufferLog}
use smartphone_robot_firmwar.Motor.State.{MotorState}
use smartphone_robot_firmwar.Gauge.State.{GaugeState}
use smartphone_robot_firmwar.Wireless.State.{WirelessState}
use smartphone_robot_firmwar.Charger.State.{ChargerState}
use smartphone_robot_firmwar.Comm.State.{CommState}
use smartphone_robot_firmwar.Usb.State.{UsbState}
use smartphone_robot_firmwar.Encoders.State.{EncoderState}

-- The answers of the SDK and of the devices behind it, from the calls so far, newest first: the call
-- that is answered is the first of the list. `expand` is what a format and its arguments read as,
-- `past_send_buf` the static bytes behind the 4 of the charger's `send_buf`, and `past_opcode_buf` those
-- behind the 33 of `op_code_return_buf`, `null_byte` the byte at address 0. The `opcode` fields answer
-- for `opcode_queue`, `call_entry` is the next entry of `call_queue`, `now_ms` the time since the start,
-- `pwm_slice` the slice of a pin, `pio_offset` where the encoders' program is loaded.
pub record Hardware : Type 0 where
  pub write_result : List Event → ℤ
  pub read_result : List Event → ℤ
  pub read_bytes : List Event → List ℕ
  pub pin_level : List Event → Bool
  pub adc_value : List Event → ℕ
  pub encoder_count : List Event → ℕ
  pub char_in : List Event → Option ℕ
  pub queue_accepts : List Event → Bool
  pub past_send_buf : List Event → List ℕ
  pub opcode_accepts : List Event → Bool
  pub opcode_removed : List Event → Option QueueEntry
  pub opcode_level : List Event → ℕ
  pub past_opcode_buf : List Event → ℕ → ℕ
  pub null_byte : ℕ
  pub results_accepts : List Event → Bool
  pub call_entry : List Event → QueueEntry
  pub now_ms : List Event → ℕ
  pub results_empty : List Event → Bool
  pub call_empty : List Event → Bool
  pub pwm_slice : ℕ → ℕ
  pub pio_offset : ℕ
  pub expand : String → List Arg → List ℕ

pub record World : Type 0 where
  pub trace : List Event  -- newest first
  pub log_buffer : CircularBufferLog
  pub motor : MotorState
  pub gauge : GaugeState
  pub wireless : WirelessState
  pub charger : ChargerState
  pub comm : CommState
  pub usb : UsbState
  pub encoders : EncoderState
  pub core1_shutdown_requested : Bool

pub data Outcome {ℓ} (A : Type ℓ) : Type ℓ where
  ok : A → World → Outcome A
  assert_failed : World → Outcome A

abbrev pub M : Type 0 → Type 0
M A = World → Outcome A

abbrev pub pure : {A : Type 0} → A → M A
pure a w = ok a w

infixl 5 ◌>>=◌ ◌>>◌
abbrev pub ◌>>=◌ : {A B : Type 0} → M A → (A → M B) → M B
◌>>=◌ m f w = elim (m w) [ ok a w' ↦ f a w' | assert_failed w' ↦ assert_failed w' ]

abbrev pub ◌>>◌ : {B : Type 0} → M (Unit {0}) → M B → M B
m >> k = m >>= λ _. k

-- `assert(false)`
abbrev pub assert_false : {A : Type 0} → M A
assert_false w = assert_failed w

abbrev pub modify : (World → World) → M (Unit {0})
modify f w = ok tt (f w)

abbrev pub gets : {A : Type 0} → (World → A) → M A
gets f w = ok (f w) w

-- A call of the SDK that answers nothing.
abbrev pub call : Event → M (Unit {0})
call e w = ok tt (record w { trace = e ∷ w.trace })

-- A call that answers from the history.
abbrev pub ask : {A : Type 0} → (List Event → A) → Event → M A
ask answer e w = ok (answer (e ∷ w.trace)) (record w { trace = e ∷ w.trace })

abbrev pub when : Bool → M (Unit {0}) → M (Unit {0})
when b m = if b then m else pure tt

abbrev pub rp2040_log_acquire_lock : M (Unit {0})
rp2040_log_acquire_lock = call Event.mutex_enter_blocking

abbrev pub rp2040_log_release_lock : M (Unit {0})
rp2040_log_release_lock = call Event.mutex_exit

-- The buffer after a message.
abbrev pub logged : Hardware → String → List Arg → World → World
logged hw format args w = record w {
  log_buffer = Log.rp2040_log (hw.expand format args) w.log_buffer;
}

module _ (hw : Hardware) where
  unfoldable pub rp2040_log : String → List Arg → M (Unit {0})
  rp2040_log format args = do
    rp2040_log_acquire_lock
    modify (logged hw format args)
    rp2040_log_release_lock

  -- `queue_try_add(&call_queue, &entry)`
  abbrev pub queue_try_add : EntryFunc → ℕ → M Bool
  queue_try_add func arg =
      ask hw.queue_accepts (Event.queue_try_add (record { func = func; arg = arg }))

  abbrev pub gpio_get : ℕ → M Bool
  gpio_get pin = ask hw.pin_level (Event.gpio_get pin)
