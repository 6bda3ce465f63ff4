-- ===== src/Tests/Startup.antt =====
-- src/robot.c: the self tests and the shutdown on a board whose USB-C controller never reports.
use smartphone_robot_firmwar.Base.{[], refl}
use smartphone_robot_firmwar.Board.Waits.{Endless}
use smartphone_robot_firmwar.Robot.Start.{robot_unit_tests, on_shutdown}
use smartphone_robot_firmwar.Robot.Waits.{robot_unit_tests-on_shutdown-waits}
use smartphone_robot_firmwar.Tests.Scenario.{start, header}
use smartphone_robot_firmwar.Tests.Usb.{queue_board, queue_board-OpcodeFifo, queue_acks}
use smartphone_robot_firmwar.Tests.Voltage.{fixed_point}

robot_unit_tests-on_shutdown-waits_example :
    Endless (robot_unit_tests queue_board header fixed_point (λ w. w) 1000 (start []))
    × Endless (on_shutdown queue_board (λ w. w) 1000 (start []))
unfolding smartphone_robot_firmwar.Usb.Laws.Queue.contents
robot_unit_tests-on_shutdown-waits_example =
    robot_unit_tests-on_shutdown-waits queue_board header queue_acks queue_board-OpcodeFifo
      fixed_point (λ w. w) (λ w e. e) 1000 (start []) refl
