-- ===== src/Tests/Usb.antt =====
-- The USB-C controller, the interrupt dispatch and the small drivers at a concrete board.
use smartphone_robot_firmwar.Base.{
  pos, Bool, true, false, ltb, List, [], ◌∷◌, ◌++◌, length, Option, none, inl, ◌≤◌, ◌≡◌, refl,
  arith,
}
use smartphone_robot_firmwar.Board.Sdk.{Event, EntryFunc, QueueEntry, i2c0}
use smartphone_robot_firmwar.Board.{Hardware, World, ok}
use smartphone_robot_firmwar.Board.Keeps.{Post}
use smartphone_robot_firmwar.Board.Bus.{BusAcks, after}
use smartphone_robot_firmwar.Board.Waits.{ends}
use smartphone_robot_firmwar.Charger.SelfTest.{test_max77976_interrupt}
use smartphone_robot_firmwar.Wireless.SelfTest.{test_ncp3901_interrupt}
use smartphone_robot_firmwar.Motor.SelfTest.{test_drv8830_interrupt}
use smartphone_robot_firmwar.Motor.Scope.{packed_controls, drv8830_scope_set_controls}
use smartphone_robot_firmwar.Motor.Packing.{drv8830_scope_set_controls-packed}
use smartphone_robot_firmwar.Gauge.Laws.Pending.{OneEdge, irq_enabled}
use smartphone_robot_firmwar.Usb.Config.{CustomerConfig, max77958_build_customer_config_value}
use smartphone_robot_firmwar.Usb.Opcode.{default_config}
use smartphone_robot_firmwar.Usb.Laws.Config.{
  config_from, config_from-max77958_build_customer_config_value,
}
use smartphone_robot_firmwar.Usb.Irq.{on_opcode_cmd_response, parse_interrupt_vals}
use smartphone_robot_firmwar.Usb.Laws.Queue.{contents, first, OpcodeFifo}
use smartphone_robot_firmwar.Usb.Laws.Refines.{
  add, pop, operate_all, run_operations, view, view_of, run_operations-refines,
}
use smartphone_robot_firmwar.Usb.Laws.Response.{
  EmptyUnlessRefused, answered, read_back, on_opcode_cmd_response_lem,
}
use smartphone_robot_firmwar.Usb.Laws.Parse.{
  registers_read, chgtype_read, parse_interrupt_vals-chgtype,
}
use smartphone_robot_firmwar.Robot.Dispatch.Laws.{Step, interrupt, entry, run_steps}
use smartphone_robot_firmwar.Robot.Dispatch.Edges.{run_steps-OneEdge}
use smartphone_robot_firmwar.Robot.Dispatch.Finished.{run_steps-EmptyUnlessRefused}
use smartphone_robot_firmwar.Board.Gives.{Result}
use smartphone_robot_firmwar.Robot.Scan.{i2c_scan, i2c_scan-length}
use smartphone_robot_firmwar.Robot.Endings.{interrupt_tests-ends}
use smartphone_robot_firmwar.Peripherals.EventNames.{
  gpio_event_string, gpio_irq_str, with_bits, chosen, joined, gpio_event_string_lem,
}
use smartphone_robot_firmwar.Tests.Scenario.{board, start, header}

-- A board whose opcode queue is first in, first out.
abbrev pub taken_in : List Event → Bool
taken_in (Event.opcode_queue_try_add e ∷ t) = ltb (length (contents t)) 16
taken_in _ = false

abbrev pub taken_out : List Event → Option QueueEntry
taken_out (Event.opcode_queue_try_remove ∷ t) = first (contents t)
taken_out _ = none

abbrev pub queue_board : Hardware
queue_board = record (board []) { opcode_accepts = taken_in; opcode_removed = taken_out }

pub queue_board-OpcodeFifo : OpcodeFifo queue_board
queue_board-OpcodeFifo = record { accepts = λ e t. refl; removes = λ t. refl }

pub queue_acks : BusAcks queue_board
queue_acks = record { writes = λ h. refl; reads = λ h. refl }

-- The falling edge of the gauge's pin 20 is enabled.
abbrev armed : World
armed = record (start (Event.gpio_set_irq_enabled 20 4 true ∷ [])) {
  gauge = record { gpio_interrupt = 20; interrupt_pending = false; temperature = 0 };
}

armed-OneEdge : OneEdge armed
unfolding irq_enabled
armed-OneEdge = (refl, refl)

abbrev steps : List Step
steps =
    interrupt 20 4
    ∷ entry EntryFunc.bq27742_g1_parse_interrupt_vals 0
    ∷ interrupt 7 4
    ∷ entry EntryFunc.max77958_parse_interrupt_vals 0
    ∷ entry EntryFunc.gpio_set 5
    ∷ []

run_steps-OneEdge_example : Post OneEdge (run_steps (board []) header steps armed)
run_steps-OneEdge_example = run_steps-OneEdge (board []) header steps armed armed-OneEdge

run_operations-refines_example :
    view_of queue_board (
      run_operations queue_board
        (add EntryFunc.gpio_set 5 ∷ add EntryFunc.customer_config_write 0 ∷ pop ∷ [])
        (start []))
    ≡ operate_all
        (add EntryFunc.gpio_set 5 ∷ add EntryFunc.customer_config_write 0 ∷ pop ∷ [])
        (view queue_board (start []))
run_operations-refines_example =
    run_operations-refines queue_board queue_board-OpcodeFifo (λ h. refl)
      (add EntryFunc.gpio_set 5 ∷ add EntryFunc.customer_config_write 0 ∷ pop ∷ []) (start [])

run_steps-EmptyUnlessRefused_example :
    Post (EmptyUnlessRefused queue_board) (run_steps queue_board header steps (start []))
run_steps-EmptyUnlessRefused_example =
    run_steps-EmptyUnlessRefused queue_board header queue_board-OpcodeFifo steps (start [])
      (inl refl)

abbrev waiting : World
waiting = start (Event.opcode_queue_try_add (record { func = EntryFunc.gpio_set; arg = 5 }) ∷ [])

on_opcode_cmd_response_lem_example :
    on_opcode_cmd_response queue_board header waiting
    ≡ ok tt (answered queue_board (contents waiting.trace) (read_back queue_board header waiting))
on_opcode_cmd_response_lem_example =
    on_opcode_cmd_response_lem queue_board queue_acks header queue_board-OpcodeFifo waiting

-- The interrupt registers read 0x02, 0x0f and 0: the charger type, and all four bits of CC.
abbrev plugged : Hardware
plugged = record (board []) { read_bytes = λ h. 0x02 ∷ 0x0f ∷ 0x00 ∷ 0x00 ∷ [] }

plugged_acks : BusAcks plugged
plugged_acks = record { writes = λ h. refl; reads = λ h. refl }

parse_interrupt_vals-chgtype_example :
    parse_interrupt_vals plugged header (start [])
    ≡ ok 8 (
        chgtype_read plugged header (registers_read plugged header header.reg_uic_int 4 (start [])))
unfolding smartphone_robot_firmwar.Usb.Transfer.fill
parse_interrupt_vals-chgtype_example =
    parse_interrupt_vals-chgtype plugged header plugged_acks (start []) refl refl refl refl

interrupt_tests-ends_example :
    (ends (test_max77976_interrupt (board []) (λ w. w) 1001 (start [])) ≡ true)
    × ((ends (test_ncp3901_interrupt (board []) (λ w. w) 1001 (start [])) ≡ true)
        × (ends (test_drv8830_interrupt (board []) (λ w. w) 1001 (start [])) ≡ true))
interrupt_tests-ends_example = interrupt_tests-ends (board []) (λ w. w) (start [])

gpio_event_string_lem_example :
    (gpio_event_string (with_bits true false true false)
      ≡ joined (chosen (true ∷ false ∷ true ∷ false ∷ []) gpio_irq_str) ++ 0 ∷ [])
    × (length (gpio_event_string (with_bits true false true false)) ≤ 44)
gpio_event_string_lem_example = gpio_event_string_lem true false true false

drv8830_scope_set_controls-packed_example :
    drv8830_scope_set_controls (packed_controls 0x7a 0x79) (start [])
    ≡ ok (pos 0) (
        after
          (after (start []) (Event.i2c_write_blocking i2c0 0x60 (0 ∷ 0x7a ∷ []) false))
          (Event.i2c_write_blocking i2c0 0x62 (0 ∷ 0x79 ∷ []) false))
drv8830_scope_set_controls-packed_example =
    drv8830_scope_set_controls-packed 0x7a 0x79 (start []) (omega arith) (omega arith)

-- What the firmware sends, with the moisture detection enabled.
abbrev moist : CustomerConfig
moist = record default_config { moisture_enable = true }

config_from-max77958_build_customer_config_value_example :
    config_from (max77958_build_customer_config_value moist) ≡ moist
config_from-max77958_build_customer_config_value_example =
    config_from-max77958_build_customer_config_value moist

i2c_scan-length_example : Result (λ found. length found ≤ 113) (i2c_scan (board []) i2c0 (start []))
i2c_scan-length_example = i2c_scan-length (board []) i2c0 (start [])
