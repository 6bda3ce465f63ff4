-- ===== src/Robot/Waits.antt =====
-- src/robot.c: the self tests at start and the shutdown while the USB-C controller does not answer.
use smartphone_robot_firmwar.Base.{
  ℕ, List, [], ◌∷◌, ◌==◌, not, Bool, true, false, Option, some, String, get_or, refl, ◌∙◌, ap, ltb,
  length,
}
use smartphone_robot_firmwar.Board.Sdk.{Arg, i2c0}
use smartphone_robot_firmwar.Board.{
  World, Hardware, Outcome, ok, assert_failed, M, ◌>>◌, gets, when, rp2040_log,
}
use smartphone_robot_firmwar.Board.Bus.{BusAcks}
use smartphone_robot_firmwar.Board.Calm.{Calm, log-Keeps}
use smartphone_robot_firmwar.Board.Keeps.{
  Post, Keeps, keeps, Keeps-pure, Keeps->>=, Keeps->>, Keeps-when, Keeps-gets, Keeps-if,
}
use smartphone_robot_firmwar.Board.Gives.{
  Result, Gives, Anything, Gives-any, Gives->>=, Gives->>, Gives-if, modify-Gives, gets-Gives,
  log-Gives, when_log-Gives, write-Gives, read-Gives, Result-bind,
}
use smartphone_robot_firmwar.Board.Waits.{Endless}
use smartphone_robot_firmwar.Motor.Voltage.{Floats}
use smartphone_robot_firmwar.Usb.Header.{DriverHeader}
use smartphone_robot_firmwar.Usb.Transfer.{
  clear_send_buf, clear_return_buf, put_send, write_send_buf, read_return_buf, read_registers,
  max77958_read_register,
}
use smartphone_robot_firmwar.Usb.Irq.{test_max77958_get_id}
use smartphone_robot_firmwar.Usb.SelfTest.{
  StatusReg, status_regs, read_status_regs, test_max77958_status_block_read_all, run_opcode,
  max77958_shutdown,
}
use smartphone_robot_firmwar.Usb.SelfTest.Reads.{test_max77958_bc_ctrl1_read}
use smartphone_robot_firmwar.Usb.Laws.Buffers.{
  clear_send-Keeps, clear_return-Keeps, send-Keeps, receive-Keeps, registers-Keeps,
}
use smartphone_robot_firmwar.Usb.Laws.Queue.{OpcodeFifo}
use smartphone_robot_firmwar.Usb.Laws.Response.{contents-Mundane}
use smartphone_robot_firmwar.Usb.Laws.Waiting.{
  Unfinished, HasRoom, Endless-resume, run_opcode-waits, max77958_shutdown-waits,
}
use smartphone_robot_firmwar.Robot.Start.{continue, robot_unit_tests, on_shutdown}

HasRoom-Calm : Calm HasRoom
HasRoom-Calm = record {
  quiet = λ w e m h. ap (λ q. ltb (length q) 16) (contents-Mundane e w.trace m) ∙ h;
  logs = λ hw w m args h. h;
  motor = λ w s h. h;
  wireless = λ w s h. h;
  charger = λ w s h. h;
  usb = λ w s e h. h;
  core1 = λ w b h. h;
}

-- Nothing follows a part that does not end, and it does not end after a part that leaves room.
then-Endless :
    (o : Outcome (Option (Unit {0}))) (k : M (Option (Unit {0})))
    → Endless o
    → Endless (elim o as (λ k. Outcome (Option (Unit {0}))) [
      | ok a w ↦ continue k a w
      | assert_failed w ↦ assert_failed w
    ])
unfolding Result continue
then-Endless (ok r w) k h = rw h refl
then-Endless (assert_failed w) k h = elim h [ ]

whole-Endless :
    (o : Outcome (Unit {0})) (k : M (Option (Unit {0})))
    → Post HasRoom o
    → Result Anything o
    → ((w : World) → HasRoom w → Endless (k w))
    → Endless
        (elim (elim o as (λ k. Outcome (Option (Unit {0}))) [
          | ok a w ↦ ok (some tt) w
          | assert_failed w ↦ assert_failed w
        ])
          as (λ k. Outcome (Option (Unit {0}))) [
            | ok a w ↦ continue k a w
            | assert_failed w ↦ assert_failed w
          ])
unfolding Result continue
whole-Endless (ok a w) k p r h = h w p
whole-Endless (assert_failed w) k p r h = elim r [ ]

module _ (hw : Hardware) (header : DriverHeader) where
  register-Keeps : (reg : ℕ) → Keeps HasRoom (max77958_read_register hw header reg)
  unfolding max77958_read_register
  register-Keeps reg =
      Keeps->> HasRoom (read_registers hw header reg 1) _
        (registers-Keeps HasRoom HasRoom-Calm hw header reg 1) (keeps (λ w h. h))

  status-Keeps : (regs : List StatusReg) → Keeps HasRoom (read_status_regs hw header regs)
  unfolding read_status_regs
  status-Keeps [] = Keeps-pure HasRoom tt
  status-Keeps (r ∷ regs) =
      Keeps->>= HasRoom (max77958_read_register hw header r.reg) _ (register-Keeps r.reg) (λ val.
        Keeps->> HasRoom _ (read_status_regs hw header regs)
          (Keeps-if HasRoom (not (val == r.expected)) (rp2040_log hw _ _) (rp2040_log hw _ _)
            (log-Keeps HasRoom HasRoom-Calm hw _ _) (log-Keeps HasRoom HasRoom-Calm hw _ _))
          (status-Keeps regs))

  report-Keeps : (m : String) (args : List Arg) → Keeps HasRoom (rp2040_log hw m args)
  report-Keeps m args = log-Keeps HasRoom HasRoom-Calm hw m args

  get_id-Keeps : Keeps HasRoom (test_max77958_get_id hw header)
  unfolding test_max77958_get_id
  get_id-Keeps = Keeps->> HasRoom (rp2040_log hw _ _) _ (report-Keeps _ _) (
      Keeps->> HasRoom clear_send_buf _ (clear_send-Keeps HasRoom HasRoom-Calm) (
        Keeps->> HasRoom clear_return_buf _ (clear_return-Keeps HasRoom HasRoom-Calm) (
          Keeps->> HasRoom _ _ (send-Keeps HasRoom HasRoom-Calm hw header 1 true) (
            Keeps->> HasRoom _ _ (receive-Keeps HasRoom HasRoom-Calm hw header 2) (
              Keeps-gets HasRoom (λ w. w.usb.return_buf) _
                (λ buf.
                  Keeps->> HasRoom (when (not (get_or buf 0 0 == 0x58)) _) _
                    (Keeps-when HasRoom _ _ (report-Keeps _ _))
                    (Keeps->> HasRoom (when (not (get_or buf 1 0 == 0x02)) _) _
                      (Keeps-when HasRoom _ _ (report-Keeps _ _))
                      (Keeps->> HasRoom (rp2040_log hw _ _) _ (report-Keeps _ _)
                        (report-Keeps _ _)))))))))

  block-Keeps : Keeps HasRoom (test_max77958_status_block_read_all hw header)
  unfolding test_max77958_status_block_read_all
  block-Keeps = Keeps->> HasRoom (rp2040_log hw _ _) _ (report-Keeps _ _) (status-Keeps status_regs)

  module _ (acks : BusAcks hw) where
    send-Gives : (len : ℕ) (nostop : Bool) → Gives Anything (write_send_buf hw header len nostop)
    unfolding write_send_buf
    send-Gives len nostop =
        Gives->>= Anything (gets (λ w. w.usb.send_buf)) _ (gets-Gives _)
          (λ buf. write-Gives hw acks i2c0 _ _ nostop)

    receive-Gives : (len : ℕ) → Gives Anything (read_return_buf hw header len)
    unfolding read_return_buf
    receive-Gives len =
        Gives->>= Anything _ _ (read-Gives hw acks i2c0 header.max77958_slave_p1 len false)
          (λ bytes. modify-Gives _)

    registers-Gives : (reg len : ℕ) → Gives Anything (read_registers hw header reg len)
    unfolding read_registers
    registers-Gives reg len = Gives->> Anything clear_send_buf _ (modify-Gives _) (
        Gives->> Anything clear_return_buf _ (modify-Gives _) (
          Gives->> Anything (put_send 0 reg) _ (modify-Gives _)
            (Gives->> Anything _ _ (send-Gives 1 true) (receive-Gives len))))

    register-Gives : (reg : ℕ) → Gives Anything (max77958_read_register hw header reg)
    unfolding max77958_read_register
    register-Gives reg =
        Gives->> Anything (read_registers hw header reg 1) _ (registers-Gives reg 1)
          (Gives->>= Anything (gets (λ w. w.usb.return_buf)) _ (gets-Gives _) (λ b. Gives-any _))

    status-Gives : (regs : List StatusReg) → Gives Anything (read_status_regs hw header regs)
    unfolding read_status_regs
    status-Gives [] = Gives-any tt
    status-Gives (r ∷ regs) =
        Gives->>= Anything (max77958_read_register hw header r.reg) _ (register-Gives r.reg) (λ val.
          Gives->> Anything _ (read_status_regs hw header regs)
            (Gives-if Anything (not (val == r.expected)) (rp2040_log hw _ _) (rp2040_log hw _ _)
              (log-Gives hw _ _) (log-Gives hw _ _))
            (status-Gives regs))

    get_id-Gives : Gives Anything (test_max77958_get_id hw header)
    unfolding test_max77958_get_id
    get_id-Gives = Gives->> Anything (rp2040_log hw _ _) _ (log-Gives hw _ _) (
        Gives->> Anything clear_send_buf _ (modify-Gives _) (
          Gives->> Anything clear_return_buf _ (modify-Gives _) (
            Gives->> Anything _ _ (send-Gives 1 true) (
              Gives->> Anything _ _ (receive-Gives 2) (
                Gives->>= Anything (gets (λ w. w.usb.return_buf)) _ (gets-Gives _) (λ buf.
                  Gives->> Anything (when (not (get_or buf 0 0 == 0x58)) _) _
                    (when_log-Gives hw _ _)
                    (Gives->> Anything (when (not (get_or buf 1 0 == 0x02)) _) _
                      (when_log-Gives hw _ _)
                      (Gives->> Anything (rp2040_log hw _ _) _ (log-Gives hw _ _)
                        (log-Gives hw _ _)))))))))

    block-Gives : Gives Anything (test_max77958_status_block_read_all hw header)
    unfolding test_max77958_status_block_read_all
    block-Gives =
        Gives->> Anything (rp2040_log hw _ _) _ (log-Gives hw _ _) (status-Gives status_regs)

    module _ (fifo : OpcodeFifo hw) (floats : Floats) (others : World → World)
        (silent : (w : World) → Unfinished w → Unfinished (others w)) (fuel : ℕ) where
      read-Endless :
          (w : World) → HasRoom w → Endless (test_max77958_bc_ctrl1_read hw others fuel w)
      unfolding test_max77958_bc_ctrl1_read
      read-Endless w room =
          Result-bind HasRoom Anything _ (rp2040_log hw _ _ w) _ ((report-Keeps _ _).at w room)
            ((log-Gives hw _ _).at w)
            (λ u w1 room1 v.
              Endless-resume (run_opcode hw others fuel _ _ _ w1) _
                (run_opcode-waits hw fifo others silent fuel _ _ _ w1 room1))

      -- The tests before it, which use no command.
      abbrev before : M (Unit {0})
      before = do
        rp2040_log hw "----------Running robot unit tests-----------\n" []
        test_max77958_get_id hw header
        test_max77958_status_block_read_all hw header

      before-Keeps : Keeps HasRoom before
      before-Keeps =
          Keeps->> HasRoom (rp2040_log hw _ _) _ (report-Keeps _ _)
            (Keeps->> HasRoom (test_max77958_get_id hw header) _ get_id-Keeps block-Keeps)

      before-Gives : Gives Anything before
      before-Gives =
          Gives->> Anything (rp2040_log hw _ _) _ (log-Gives hw _ _)
            (Gives->> Anything (test_max77958_get_id hw header) _ get_id-Gives block-Gives)

      tests-Endless :
          (w : World) → HasRoom w → Endless (robot_unit_tests hw header floats others fuel w)
      unfolding robot_unit_tests
      tests-Endless w room =
          whole-Endless (before w) _ (before-Keeps.at w room) (before-Gives.at w) (λ w1 room1.
            then-Endless (test_max77958_bc_ctrl1_read hw others fuel w1) _ (read-Endless w1 room1))

      shutdown-Endless : (w : World) → HasRoom w → Endless (on_shutdown hw others fuel w)
      unfolding on_shutdown
      shutdown-Endless w room =
          whole-Endless (rp2040_log hw _ _ w) _ ((report-Keeps _ _).at w room)
            ((log-Gives hw _ _).at w)
            (λ w1 room1.
              then-Endless (max77958_shutdown hw others fuel w1) _
                (max77958_shutdown-waits hw fifo others silent fuel w1 room1))

      -- On a bus that acknowledges, with a first in, first out opcode queue that has room for a command,
      -- and while neither the interrupts nor core 1 report that the commands to the USB-C controller are
      -- done: robot_unit_tests, which on_start calls, and on_shutdown are still in a waiting loop when
      -- their fuel is spent, however much that is. They neither return nor stop at an assertion.
      pub robot_unit_tests-on_shutdown-waits :
          (w : World)
          → HasRoom w
          → Endless (robot_unit_tests hw header floats others fuel w)
            × Endless (on_shutdown hw others fuel w)
      robot_unit_tests-on_shutdown-waits w room = (tests-Endless w room, shutdown-Endless w room)
