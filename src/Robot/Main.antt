-- ===== src/Robot/Main.antt =====
-- src/robot.c: main. `others` is what the interrupts and core 1 make of the world during one sleep, and
-- `rounds` bounds the loop that answers the phone.
use smartphone_robot_firmwar.Base.{ℕ, zero, suc, Bool, false, Option, none, if◌then◌else◌}
use smartphone_robot_firmwar.Board.{Hardware, World, M, pure}
use smartphone_robot_firmwar.Board.Wait.{nap}
use smartphone_robot_firmwar.Motor.Voltage.{Floats}
use smartphone_robot_firmwar.Usb.Header.{DriverHeader}
use smartphone_robot_firmwar.Comm.{get_block}
use smartphone_robot_firmwar.Robot.Start.{◌then_run◌, whole, on_start, on_shutdown}

module _ (hw : Hardware) (header : DriverHeader) (floats : Floats) (others : World → World)
    (fuel : ℕ) where
  -- `while (true)`, which the first round leaves when `shutdown` is set.
  unfoldable pub main_loop : Bool → ℕ → M (Option (Unit {0}))
  main_loop shutdown zero = pure none
  main_loop shutdown (suc rounds) =
      let rest = main_loop shutdown rounds in
      whole (get_block hw)
      then_run (if shutdown
          then on_shutdown hw others fuel
          else (whole (nap others 10) then_run rest))

  unfoldable pub main : ℕ → M (Option (Unit {0}))
  main rounds =
      on_start hw header floats others fuel
      then_run whole (nap others 1000)
      then_run main_loop false rounds
      then_run on_shutdown hw others fuel
