-- ===== src/Robot/Dispatch/Finished.antt =====
-- src/robot.c, src/max77958.c: `opcodes_finished` while everything else runs.
use smartphone_robot_firmwar.Base.{not, List}
use smartphone_robot_firmwar.Board.Sdk.{EntryFunc}
use smartphone_robot_firmwar.Board.{Hardware, World, pure, when}
use smartphone_robot_firmwar.Board.Keeps.{Post, Keeps, keeps, Keeps->>=, Keeps-when, Post-if_at}
use smartphone_robot_firmwar.Board.Calm.{nonblocking-Keeps}
use smartphone_robot_firmwar.Board.Queue.{call_queue_try_add_nonblocking}
use smartphone_robot_firmwar.Gauge.Irq.{
  bq27742_g1_rearm_assert_irq, rearm_if_high, bq27742_g1_queue_parse_interrupt,
}
use smartphone_robot_firmwar.Gauge.Laws.Handlers.{rearm_if_high-Keeps}
use smartphone_robot_firmwar.Usb.Header.{DriverHeader}
use smartphone_robot_firmwar.Usb.Laws.Queue.{OpcodeFifo, contents}
use smartphone_robot_firmwar.Usb.Laws.Response.{
  EmptyUnlessRefused, EmptyUnlessRefused-Calm, add-EmptyUnlessRefused, pop-EmptyUnlessRefused,
  response-EmptyUnlessRefused, refused,
}
use smartphone_robot_firmwar.Robot.Dispatch.Laws.{Step, run_steps, steps-Keeps}

rearm-EmptyUnlessRefused :
    (hw : Hardware) → Keeps (EmptyUnlessRefused hw) bq27742_g1_rearm_assert_irq
unfolding contents refused bq27742_g1_rearm_assert_irq
rearm-EmptyUnlessRefused hw = keeps (λ w h. h)

module _ (hw : Hardware) where
  queue-EmptyUnlessRefused : Keeps (EmptyUnlessRefused hw) (bq27742_g1_queue_parse_interrupt hw)
  unfolding bq27742_g1_queue_parse_interrupt contents refused
  queue-EmptyUnlessRefused = keeps (λ w h.
      Post-if_at (EmptyUnlessRefused hw) w.gauge.interrupt_pending (pure tt) _ w h (
        (Keeps->>= (EmptyUnlessRefused hw)
            (call_queue_try_add_nonblocking hw EntryFunc.bq27742_g1_parse_interrupt_vals 0)
            (λ added. when (not added) (rearm_if_high hw))
            (nonblocking-Keeps (EmptyUnlessRefused hw) (EmptyUnlessRefused-Calm hw) hw
              EntryFunc.bq27742_g1_parse_interrupt_vals 0)
            (λ added. Keeps-when (EmptyUnlessRefused hw) (not added) (rearm_if_high hw) (
              rearm_if_high-Keeps (EmptyUnlessRefused hw) (EmptyUnlessRefused-Calm hw) hw
                (rearm-EmptyUnlessRefused hw)))).at
          _ h))

  -- Where the SDK's opcode queue is first in, first out with room for 16 entries: from a world in which
  -- `opcodes_finished` is false, or no command waits, or the queue of core 1 has refused an entry, every
  -- sequence of interrupts and of entries of the call queue leaves such a world. So, before the first
  -- refusal, the flag never says that the commands are done while one still waits. The other answers of
  -- the board, the refusals included, are arbitrary.
  pub run_steps-EmptyUnlessRefused :
      (header : DriverHeader) (fifo : OpcodeFifo hw) (steps : List Step) (w : World)
      → EmptyUnlessRefused hw w
      → Post (EmptyUnlessRefused hw) (run_steps hw header steps w)
  run_steps-EmptyUnlessRefused header fifo steps w h =
      (steps-Keeps (EmptyUnlessRefused hw) (EmptyUnlessRefused-Calm hw) hw header
          (rearm-EmptyUnlessRefused hw) queue-EmptyUnlessRefused (add-EmptyUnlessRefused hw fifo)
          (pop-EmptyUnlessRefused hw fifo) (response-EmptyUnlessRefused hw fifo header) steps).at
        w h
