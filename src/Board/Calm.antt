-- ===== src/Board/Calm.antt =====
-- Predicates of the world that most drivers leave alone: they may only speak of the gauge, the log-free
-- state of the opcode queue, and the calls that enable an interrupt or use that queue.
use smartphone_robot_firmwar.Base.{ℕ, Bool, true, false, List, String, ◌≡◌, refl}
use smartphone_robot_firmwar.Board.Sdk.{Event, I2c, Arg, EntryFunc}
use smartphone_robot_firmwar.Board.{
  Hardware, World, call, assert_false, gpio_get, rp2040_log, logged, queue_try_add,
}
use smartphone_robot_firmwar.Board.Bus.{after}
use smartphone_robot_firmwar.Board.I2cRetry.{i2c_write_error_handling, i2c_read_error_handling}
use smartphone_robot_firmwar.Board.Queue.{call_queue_try_add, call_queue_try_add_nonblocking}
use smartphone_robot_firmwar.Board.Keeps.{
  Keeps, keeps, Stable, Keeps-call, Keeps-ask, Keeps-rp2040_log, Keeps-i2c_write, Keeps-i2c_read,
  Keeps->>=, Keeps->>, Keeps-if, Keeps-pure,
}
use smartphone_robot_firmwar.Motor.State.{MotorState}
use smartphone_robot_firmwar.Wireless.State.{WirelessState}
use smartphone_robot_firmwar.Charger.State.{ChargerState}
use smartphone_robot_firmwar.Usb.State.{UsbState}

-- The calls that neither enable an interrupt nor use the opcode queue.
abbrev pub is_mundane : Event → Bool
is_mundane (Event.gpio_set_irq_enabled pin edges enabled) = false
is_mundane Event.opcode_queue_init = false
is_mundane (Event.opcode_queue_try_add entry) = false
is_mundane Event.opcode_queue_try_remove = false
is_mundane Event.opcode_queue_get_level = false
is_mundane _ = true

abbrev pub Mundane : Event → Type 0
Mundane e = is_mundane e ≡ true

pub record Calm (P : World → Type 0) : Type 0 where
  pub quiet : (w : World) (e : Event) → Mundane e → P w → P (after w e)
  pub logs :
      (hw : Hardware) (w : World) (m : String) (args : List Arg) → P w → P (logged hw m args w)
  pub motor : (w : World) (s : MotorState) → P w → P (record w { motor = s })
  pub wireless : (w : World) (s : WirelessState) → P w → P (record w { wireless = s })
  pub charger : (w : World) (s : ChargerState) → P w → P (record w { charger = s })
  pub usb :
      (w : World) (s : UsbState)
      → s.opcodes_finished ≡ w.usb.opcodes_finished
      → P w
      → P (record w { usb = s })
  pub core1 : (w : World) (b : Bool) → P w → P (record w { core1_shutdown_requested = b })

module _ (P : World → Type 0) (calm : Calm P) where
  stable : Stable P Mundane
  stable = record { quiet = calm.quiet; logs = calm.logs; enter = refl; exit = refl; nap = refl }

  pub call-Keeps : (e : Event) → Mundane e → Keeps P (call e)
  call-Keeps e q = Keeps-call P Mundane stable e q

  pub ack-Keeps : (pin edges : ℕ) → Keeps P (call (Event.gpio_acknowledge_irq pin edges))
  ack-Keeps pin edges = call-Keeps (Event.gpio_acknowledge_irq pin edges) refl

  pub assert-Keeps : {A : Type 0} → Keeps P (assert_false {A = A})
  assert-Keeps = keeps (λ w h. h)

  module _ (hw : Hardware) where
    pub log-Keeps : (m : String) (args : List Arg) → Keeps P (rp2040_log hw m args)
    log-Keeps m args = Keeps-rp2040_log P Mundane stable hw m args

    pub get-Keeps : (pin : ℕ) → Keeps P (gpio_get hw pin)
    get-Keeps pin = Keeps-ask P Mundane stable hw.pin_level (Event.gpio_get pin) refl

    pub write-Keeps :
        (i2c : I2c) (addr : ℕ) (src : List ℕ) (nostop : Bool)
        → Keeps P (i2c_write_error_handling hw i2c addr src nostop)
    write-Keeps i2c addr src nostop = Keeps-i2c_write P Mundane stable hw i2c addr src nostop refl

    pub read-Keeps :
        (i2c : I2c) (addr len : ℕ) (nostop : Bool)
        → Keeps P (i2c_read_error_handling hw i2c addr len nostop)
    read-Keeps i2c addr len nostop = Keeps-i2c_read P Mundane stable hw i2c addr len nostop refl

    pub queue-Keeps : (func : EntryFunc) (arg : ℕ) → Keeps P (queue_try_add hw func arg)
    queue-Keeps func arg =
        Keeps-ask P Mundane stable hw.queue_accepts
          (Event.queue_try_add (record { func = func; arg = arg })) refl

    pub call_queue-Keeps : (func : EntryFunc) (arg : ℕ) → Keeps P (call_queue_try_add hw func arg)
    unfolding call_queue_try_add
    call_queue-Keeps func arg =
        search (Keeps->>=, Keeps->>, Keeps-if, Keeps-pure, queue-Keeps, log-Keeps, assert-Keeps)

    pub nonblocking-Keeps :
        (func : EntryFunc) (arg : ℕ) → Keeps P (call_queue_try_add_nonblocking hw func arg)
    unfolding call_queue_try_add_nonblocking
    nonblocking-Keeps func arg = queue-Keeps func arg
