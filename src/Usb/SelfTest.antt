-- ===== src/Usb/SelfTest.antt =====
-- src/max77958.c: the self tests that run at start, and the shutdown. Each waits, without a bound, until
-- the controller has answered: `fuel` bounds the rounds of each loop, and `others` is what happens
-- during a sleep.
pub mod Reads
use smartphone_robot_firmwar.Base.{
  ℕ, ◌*◌, ◌+◌, ◌^◌, zero, suc, ltb, Bool, true, false, List, [], ◌∷◌, ◌++◌, Option, none, some,
  String, ◌==◌, ◌||◌, not, get_or, if◌then◌else◌, bit_or, u32,
}
use smartphone_robot_firmwar.Board.Sdk.{Event, Arg, EntryFunc}
use smartphone_robot_firmwar.Board.{
  Hardware, World, M, pure, ◌>>=◌, ◌>>◌, gets, call, when, gpio_get, rp2040_log,
}
use smartphone_robot_firmwar.Board.Wait.{wait_logging, resume}
use smartphone_robot_firmwar.Usb.State.{UsbState}
use smartphone_robot_firmwar.Usb.Header.{DriverHeader}
use smartphone_robot_firmwar.Usb.Transfer.{
  update_usb, max77958_read_register, set_interrupt_masks, set_interrupt_masks_all_masked,
}
use smartphone_robot_firmwar.Usb.Config.{gpio_bool_to_int32}
use smartphone_robot_firmwar.Usb.Opcode.{byte_to_binary, opcode_queue_add, opcode_queue_pop}

-- `max77958_status_reg_t`
pub record StatusReg : Type 0 where
  pub name : String
  pub reg : ℕ
  pub expected : ℕ

abbrev pub status_regs : List StatusReg
status_regs =
    record { name = "USBC_STATUS1"; reg = 0x08; expected = 0x07 }
    ∷ record { name = "USBC_STATUS2"; reg = 0x09; expected = 0x00 }
    ∷ record { name = "USBC_STATUS3"; reg = 0x0a; expected = 0x00 }
    ∷ record { name = "USBC_STATUS4"; reg = 0x0b; expected = 0x00 }
    ∷ record { name = "CC_STATUS0"; reg = 0x0c; expected = 0x00 }
    ∷ record { name = "CC_STATUS1"; reg = 0x0d; expected = 0x00 }
    ∷ record { name = "PD_STATUS0"; reg = 0x0e; expected = 0x00 }
    ∷ record { name = "PD_STATUS1"; reg = 0x0f; expected = 0x00 }
    ∷ []

module _ (hw : Hardware) where
  -- `op_code_return_buf[i]`, for an index that may lie behind the 33 bytes.
  unfoldable pub returned : ℕ → M ℕ
  returned i w =
      pure (if ltb i 33 then get_or w.usb.op_code_return_buf i 0 else hw.past_opcode_buf w.trace i)
        w

  -- The four bytes of one power data object, from `2 + j * 4` on.
  unfoldable pub read_pdo : ℕ → M ℕ
  read_pdo j = do
    byte0 ← returned (2 + j * 4)
    byte1 ← returned (3 + j * 4)
    byte2 ← returned (4 + j * 4)
    byte3 ← returned (5 + j * 4)
    pure (u32 (bit_or (bit_or (bit_or byte0 (byte1 * 2 ^ 8)) (byte2 * 2 ^ 16)) (byte3 * 2 ^ 24)))

  -- `for (int j = 0; j < count; j++)`, with `remaining` rounds to go.
  unfoldable pub log_pdos : String → ℕ → ℕ → M (Unit {0})
  log_pdos format zero j = pure tt
  log_pdos format (suc remaining) j = do
    pdo ← read_pdo j
    rp2040_log hw format (Arg.num j ∷ Arg.num pdo ∷ [])
    log_pdos format remaining (suc j)

  module _ (header : DriverHeader) where
    unfoldable pub read_status_regs : List StatusReg → M (Unit {0})
    read_status_regs [] = pure tt
    read_status_regs (r ∷ regs) = do
      val ← max77958_read_register hw header r.reg
      if not (val == r.expected)
          then rp2040_log hw
              "test_max77958_status_block_read_all ERROR: %s expected 0b%c%c%c%c%c%c%c%c, got 0b%c%c%c%c%c%c%c%c\n"
              (Arg.str r.name ∷ byte_to_binary r.expected (byte_to_binary val []))
          else rp2040_log hw
              "test_max77958_status_block_read_all PASSED: %s matches reset value 0b%c%c%c%c%c%c%c%c\n"
              (Arg.str r.name ∷ byte_to_binary val [])
      read_status_regs regs

    unfoldable pub test_max77958_status_block_read_all : M (Unit {0})
    test_max77958_status_block_read_all = do
      rp2040_log hw "test_max77958_status_block_read_all started...\n" []
      read_status_regs status_regs

module _ (hw : Hardware) (others : World → World) (fuel : ℕ) where
  -- The opcode is queued and started, and its answer awaited for 100 ms at a time.
  unfoldable pub run_opcode : EntryFunc → ℕ → String → M (Option ℕ)
  run_opcode func arg timed_out = do
    opcode_queue_add hw func arg
    _ ← opcode_queue_pop hw
    wait_logging hw others (λ w. w.usb.opcodes_finished) 100 10 timed_out fuel 0

  unfoldable pub max77958_shutdown : M (Option (Unit {0}))
  max77958_shutdown = do
    rounds ←
        run_opcode EntryFunc.gpio_set (gpio_bool_to_int32 false false)
          "ERROR: Timed out waiting for GPIO to finish\n"
    resume rounds (λ i. pure tt)

  module _ (header : DriverHeader) where
    unfoldable pub test_max77958_interrupt : M (Option (Unit {0}))
    test_max77958_interrupt = do
      rp2040_log hw "test_max77958_interrupt started...\n" []
      set_interrupt_masks_all_masked hw header
      update_usb (λ u. record u { test_max77958_started = true })
      pin ← gets (λ w. w.usb.gpio_interrupt)
      before ← gpio_get hw pin
      rp2040_log hw "test_max77958_interrupt: prior to driving low GPIO%d. Current Value:%d\n"
          (Arg.num pin ∷ Arg.num (if before then 1 else 0) ∷ [])
      call (Event.gpio_set_dir pin true)
      high ← gpio_get hw pin
      when high (do
        value ← gpio_get hw pin
        rp2040_log hw
            "ERROR: test_max77958_interrupt: GPIO%d was not driven low. Current Value:%d\n"
            (Arg.num pin ∷ Arg.num (if value then 1 else 0) ∷ []))
      now ← gpio_get hw pin
      rp2040_log hw "test_max77958_interrupt: after driving low GPIO%d. Current Value:%d\n"
          (Arg.num pin ∷ Arg.num (if now then 1 else 0) ∷ [])
      rounds ←
          wait_logging hw others (λ w. w.usb.test_max77958_completed) 10 1000
            "ERROR: test_max77958_interrupt timed out\n" fuel 0
      resume rounds (λ i. (do
        pin_after ← gets (λ w. w.usb.gpio_interrupt)
        call (Event.gpio_set_dir pin_after false)
        call (Event.gpio_pull_up pin_after)
        update_usb
            (λ u. record u { test_max77958_started = false; test_max77958_completed = false })
        set_interrupt_masks hw header
        update_usb (λ u. record u { test_max77958_interrupt_bool = false })
        rp2040_log hw "test_max77958_interrupt: PASSED after %lu milliseconds.\n"
            (Arg.num (u32 (i * 10)) ∷ [])))
