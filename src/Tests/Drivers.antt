-- ===== src/Tests/Drivers.antt =====
-- The drivers and the retries at concrete answers.
use smartphone_robot_firmwar.Base.{ℤ, pos, negsuc, List, [], ◌∷◌, true, false, ◌≡◌, refl}
use smartphone_robot_firmwar.Board.Sdk.{Event, EntryFunc, i2c0, Arg}
use smartphone_robot_firmwar.Board.{Hardware, World, ok}
use smartphone_robot_firmwar.Board.Bus.{BusAcks, told}
use smartphone_robot_firmwar.Board.I2cRetry.{i2c_write_error_handling, i2c_read_error_handling}
use smartphone_robot_firmwar.Board.Retries.{
  i2c_write_error_handling_lem, i2c_read_error_handling_lem,
}
use smartphone_robot_firmwar.Motor.{drv8830_get_faults, drv8830_fault_handler}
use smartphone_robot_firmwar.Motor.Faults.{
  queried, sent_clear, drv8830_get_faults_lem, drv8830_fault_handler_lem,
}
use smartphone_robot_firmwar.Wireless.{ncp3901_on_wireless_charger_interrupt}
use smartphone_robot_firmwar.Wireless.Laws.{edge_handled, ncp3901_on_wireless_charger_interrupt_lem}
use smartphone_robot_firmwar.Charger.{max77976_init}
use smartphone_robot_firmwar.Charger.Laws.{sent, prepared, max77976_init_lem}
use smartphone_robot_firmwar.Tests.Scenario.{board, acks, start}

-- A bus that fails once and then acknowledges.
abbrev flaky_result : List Event → ℤ
flaky_result [] = negsuc 0
flaky_result (e ∷ []) = negsuc 1
flaky_result (e ∷ e' ∷ h) = pos 1

abbrev flaky : Hardware
flaky = record (board []) { write_result = flaky_result; read_result = flaky_result }

i2c_write_error_handling_lem_example :
    i2c_write_error_handling flaky i2c0 0x55 (0x08 ∷ []) true (start [])
    ≡ ok tt (
        start (
          Event.i2c_write_timeout_us i2c0 0x55 (0x08 ∷ []) true
          ∷ Event.sleep_ms 10
          ∷ Event.i2c_write_timeout_us i2c0 0x55 (0x08 ∷ []) true
          ∷ []))
i2c_write_error_handling_lem_example =
    i2c_write_error_handling_lem flaky i2c0 0x55 (0x08 ∷ []) true (start [])

i2c_read_error_handling_lem_example :
    i2c_read_error_handling flaky i2c0 0x55 2 false (start [])
    ≡ ok (0x21 ∷ 0x43 ∷ []) (
        start (
          Event.i2c_read_timeout_us i2c0 0x55 2 false
          ∷ Event.sleep_ms 10
          ∷ Event.i2c_read_timeout_us i2c0 0x55 2 false
          ∷ []))
i2c_read_error_handling_lem_example = i2c_read_error_handling_lem flaky i2c0 0x55 2 false (start [])

-- Both motors report an earlier overcurrent, and no active fault.
abbrev no_active_fault : Hardware
no_active_fault = record (board []) { read_bytes = λ h. 0x02 ∷ [] }

no_active_fault-BusAcks : BusAcks no_active_fault
no_active_fault-BusAcks = record { writes = λ h. refl; reads = λ h. refl }

drv8830_get_faults_lem_example :
    drv8830_get_faults no_active_fault (start [])
    ≡ ok
        (2 ∷ 2 ∷ [])
        (record (start (
          queried 0x62
            (sent_clear 0x62 (queried 0x60 (sent_clear 0x60 (queried 0x62 (queried 0x60 []))))))) {
              motor = record ((start []).motor) { fault_values = 2 ∷ 2 ∷ [] };
            })
drv8830_get_faults_lem_example =
    drv8830_get_faults_lem no_active_fault (start []) no_active_fault-BusAcks

drv8830_fault_handler_lem_example :
    drv8830_fault_handler no_active_fault 21 (start [])
    ≡ ok (pos 0) (start (sent_clear 0x62 (queried 0x62 [])))
drv8830_fault_handler_lem_example =
    drv8830_fault_handler_lem no_active_fault 21 (start []) no_active_fault-BusAcks

ncp3901_on_wireless_charger_interrupt_lem_example :
    ncp3901_on_wireless_charger_interrupt (board []) 18 4 (start [])
    ≡ ok tt (start (edge_handled 18 4 EntryFunc.ncp3901_on_wireless_charger_attached true []))
ncp3901_on_wireless_charger_interrupt_lem_example =
    ncp3901_on_wireless_charger_interrupt_lem (board []) (λ h. refl) 18 4 (start [])

abbrev begun : World
begun = told (board []) "max77976 init started\n" [] (start [])

abbrev cleared : World
cleared =
    told (board []) "MAX77976 interrupts vals: 0x10: 0x%02x, 0x11: 0x%02x, 0x12: 0x%02x\n"
      (Arg.num 0x21 ∷ Arg.num 0x43 ∷ Arg.num 0 ∷ []) (record begun { trace = prepared 6 begun })

max77976_init_lem_example :
    max77976_init (board []) 6 (start [])
    ≡ ok (pos 0) (record cleared {
      trace = sent 0x1c 0x00 (
          sent 0x1f 0xbb
            (sent 0x1e 0x00 (sent 0x18 0x19 (sent 0x16 0x05 (sent 0x1c 0x0c cleared.trace)))));
    })
max77976_init_lem_example = max77976_init_lem (board []) 6 (start []) (acks [])
