-- ===== src/Robot/Dispatch/Edges.antt =====
-- src/robot.c, src/bq27742_g1.c: the edges of the gauge's pin while everything else runs.
use smartphone_robot_firmwar.Base.{ℕ, Bool, true, List, Option, none, some, not}
use smartphone_robot_firmwar.Board.Sdk.{Event, EntryFunc, QueueEntry}
use smartphone_robot_firmwar.Board.{Hardware, World, ask}
use smartphone_robot_firmwar.Board.Keeps.{
  Post, Keeps, keeps, Keeps-pure, Keeps->>=, Keeps->>, Keeps-when, Keeps-if,
}
use smartphone_robot_firmwar.Board.Calm.{log-Keeps, queue-Keeps, assert-Keeps}
use smartphone_robot_firmwar.Gauge.Laws.Pending
use smartphone_robot_firmwar.Gauge.Laws.Pending.{OneEdge, OneEdge-Calm, irq_enabled, rearm-Keeps}
use smartphone_robot_firmwar.Usb.Header.{DriverHeader}
use smartphone_robot_firmwar.Usb.Transfer.{update_usb}
use smartphone_robot_firmwar.Usb.Opcode.{opcode_queue_add, start_opcode, opcode_queue_pop}
use smartphone_robot_firmwar.Usb.Irq.{on_opcode_cmd_response}
use smartphone_robot_firmwar.Usb.Laws.Buffers.{opcode_read-Keeps}
use smartphone_robot_firmwar.Robot.Dispatch.Laws.{Step, run_steps, steps-Keeps}

finished-OneEdge : (b : Bool) → Keeps OneEdge (update_usb (λ u. record u { opcodes_finished = b }))
finished-OneEdge b = keeps (λ w h. h)

module _ (hw : Hardware) where
  tried-OneEdge :
      (entry : QueueEntry)
      → Keeps OneEdge (ask hw.opcode_accepts (Event.opcode_queue_try_add entry))
  unfolding irq_enabled
  tried-OneEdge entry = keeps (λ w h. h)

  level-OneEdge : Keeps OneEdge (ask hw.opcode_level Event.opcode_queue_get_level)
  unfolding irq_enabled
  level-OneEdge = keeps (λ w h. h)

  removed-OneEdge : Keeps OneEdge (ask hw.opcode_removed Event.opcode_queue_try_remove)
  unfolding irq_enabled
  removed-OneEdge = keeps (λ w h. h)

  pub add-OneEdge : (func : EntryFunc) (arg : ℕ) → Keeps OneEdge (opcode_queue_add hw func arg)
  unfolding opcode_queue_add
  add-OneEdge func arg =
      search
        (
          Keeps->>=,
          Keeps->>,
          Keeps-when,
          finished-OneEdge,
          tried-OneEdge,
          level-OneEdge,
          log-Keeps OneEdge OneEdge-Calm hw,
          assert-Keeps OneEdge OneEdge-Calm,
        )
        depth 12

  start-OneEdge : (removed : Option QueueEntry) → Keeps OneEdge (start_opcode hw removed)
  unfolding start_opcode
  start-OneEdge none = search (Keeps->>, Keeps-pure, log-Keeps OneEdge OneEdge-Calm hw)
  start-OneEdge (some entry) =
      search
        (
          Keeps->>=,
          Keeps->>,
          Keeps-if,
          Keeps-pure,
          level-OneEdge,
          log-Keeps OneEdge OneEdge-Calm hw,
          queue-Keeps OneEdge OneEdge-Calm hw,
        )
        depth 12

  pub pop-OneEdge : Keeps OneEdge (opcode_queue_pop hw)
  unfolding opcode_queue_pop
  pop-OneEdge = Keeps->>= OneEdge _ _ removed-OneEdge start-OneEdge

  module _ (header : DriverHeader) where
    response-OneEdge : Keeps OneEdge (on_opcode_cmd_response hw header)
    unfolding on_opcode_cmd_response
    response-OneEdge = Keeps->> OneEdge _ _ (opcode_read-Keeps OneEdge OneEdge-Calm hw header) (
        Keeps->>= OneEdge _ _ pop-OneEdge
          (λ started. Keeps-when OneEdge (not started) _ (finished-OneEdge true)))

    -- From a world in which exactly one edge of the gauge's pin is enabled (the falling one, or the
    -- rising one while a parse is pending), every sequence of interrupts on any pins with any event
    -- masks, and of entries of the call queue of any driver with any data, leaves such a world, on all
    -- answers of the board and of the devices, also where a full queue, a failing bus or an assertion
    -- stops the firmware half way.
    pub run_steps-OneEdge :
        (steps : List Step) (w : World) → OneEdge w → Post OneEdge (run_steps hw header steps w)
    run_steps-OneEdge steps w h =
        (steps-Keeps OneEdge OneEdge-Calm hw header rearm-Keeps (Pending.queue-Keeps hw) add-OneEdge
            pop-OneEdge response-OneEdge steps).at
          w h
