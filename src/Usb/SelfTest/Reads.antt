-- ===== src/Usb/SelfTest/Reads.antt =====
-- src/max77958.c: the self tests that read a register block by an opcode and compare the answer.
use smartphone_robot_firmwar.Base.{
  ℕ, ◌*◌, ◌+◌, ◌^◌, Bool, true, false, [], ◌∷◌, Option, none, some, String, ◌==◌, ◌||◌, not,
  if◌then◌else◌, bit_or,
}
use smartphone_robot_firmwar.Board.Sdk.{Arg, EntryFunc}
use smartphone_robot_firmwar.Board.{Hardware, World, M, pure, ◌>>=◌, ◌>>◌, when, rp2040_log}
use smartphone_robot_firmwar.Board.Wait.{resume}
use smartphone_robot_firmwar.Usb.Transfer.{update_usb}
use smartphone_robot_firmwar.Usb.Opcode.{byte_to_binary}
use smartphone_robot_firmwar.Usb.SelfTest.{returned, log_pdos, run_opcode}

module _ (hw : Hardware) where
  -- `if (op_code_return_buf[0] != op)`, for a message with or without the opcode that was returned.
  unfoldable pub check_opcode : ℕ → String → Bool → M (Unit {0})
  check_opcode op message shown = do
    echoed ← returned hw 0
    when (not (echoed == op)) (rp2040_log hw message (if shown then Arg.num echoed ∷ [] else []))

  -- `if (op_code_return_buf[i] != expected)` over a byte that is printed in binary.
  unfoldable pub check_byte : ℕ → ℕ → String → String → M (Unit {0})
  check_byte i expected wrong passed = do
    byte ← returned hw i
    rp2040_log hw (if byte == expected then passed else wrong) (byte_to_binary byte [])

  -- One of the checks that count into `error_count`.
  unfoldable pub count_error : ℕ → ℕ → M ℕ
  count_error i error_count = do
    byte ← returned hw i
    if byte == 0 then pure error_count else (do
      rp2040_log hw
          "test_max77958_gpio_control_read ERROR: OPCODE should be 0b00000000 (got 0b%c%c%c%c%c%c%c%c)\n"
          (byte_to_binary byte [])
      pure (error_count + 1))

  -- The lines that print the bytes of the answer to the configuration read.
  unfoldable pub log_byte : String → ℕ → M (Unit {0})
  log_byte format i = do byte ← returned hw i; rp2040_log hw format (Arg.num byte ∷ [])

  -- `op_code_return_buf[i] | (op_code_return_buf[i + 1] << 8)`
  unfoldable pub returned_word : ℕ → M ℕ
  returned_word i = do
    low ← returned hw i
    high ← returned hw (i + 1)
    pure (bit_or low (high * 2 ^ 8))

module _ (hw : Hardware) (others : World → World) (fuel : ℕ) where
  unfoldable pub test_max77958_bc_ctrl1_read : M (Option (Unit {0}))
  test_max77958_bc_ctrl1_read = do
    rp2040_log hw "test_max77958_bc_ctrl1_read started...\n" []
    rounds ←
        run_opcode hw others fuel EntryFunc.bc_ctrl1_read 0
          "test_max77958_bc_ctrl1_read ERROR: Timed out waiting for GPIO to finish\n"
    resume rounds (λ i. (do
      check_opcode hw 0x01 "test_max77958_bc_ctrl1_read ERROR: OPCODE should be 0x01" false
      check_byte hw 1 0x81
          "test_max77958_bc_ctrl1_read ERROR: BC_CTRL1_CONFIG should be 0b10000001 instead it is 0b%c%c%c%c%c%c%c%c\n"
          "test_max77958_bc_ctrl1_read PASSED: BC_CTRL1_CONFIG = 0b%c%c%c%c%c%c%c%c\n"))

  unfoldable pub test_max77958_bc_ctrl2_read : M (Option (Unit {0}))
  test_max77958_bc_ctrl2_read = do
    rp2040_log hw "test_max77958_bc_ctrl2_read started...\n" []
    rounds ←
        run_opcode hw others fuel EntryFunc.bc_ctrl2_read 0
          "test_max77958_bc_ctrl2_read ERROR: Timed out waiting for response\n"
    resume rounds (λ i. (do
      check_opcode hw 0x03 "test_max77958_bc_ctrl2_read ERROR: OPCODE should be 0x03 (got 0x%02x)\n"
          true
      check_byte hw 1 0x01
          "test_max77958_bc_ctrl2_read ERROR: OPCODE should be 0b00000001 got 0b%c%c%c%c%c%c%c%c\n"
          "test_max77958_bc_ctrl2_read PASSED: BC_CTRL2_CONFIG = 0b%c%c%c%c%c%c%c%c\n"))

  unfoldable pub test_max77958_control1_read : M (Option (Unit {0}))
  test_max77958_control1_read = do
    rp2040_log hw "test_max77958_control1_read started...\n" []
    rounds ←
        run_opcode hw others fuel EntryFunc.control1_read 0
          "test_max77958_control1_read ERROR: Timed out waiting for response\n"
    resume rounds (λ i. (do
      check_opcode hw 0x05 "test_max77958_control1_read ERROR: OPCODE should be 0x05 (got 0x%02x)\n"
          true
      check_byte hw 1 0x00
          "test_max77958_control1_read ERROR: OPCODE should be 0b00000000 (got 0b%c%c%c%c%c%c%c%c)\n"
          "test_max77958_control1_read PASSED: CONTROL1_CONFIG = 0b%c%c%c%c%c%c%c%c\n"))

  unfoldable pub test_max77958_cc_ctrl1_read : M (Option (Unit {0}))
  test_max77958_cc_ctrl1_read = do
    rp2040_log hw "test_max77958_cc_ctrl1_read started...\n" []
    rounds ←
        run_opcode hw others fuel EntryFunc.cc_ctrl1_read 0
          "test_max77958_cc_ctrl1_read ERROR: Timed out waiting for GPIO to finish\n"
    resume rounds (λ i. (do
      check_opcode hw 0x0b "test_max77958_cc_ctrl1_read ERROR: OPCODE should be 0x0B" false
      check_byte hw 1 0x81
          "test_max77958_cc_ctrl1_read ERROR: CC_CTRL1_CONFIG should be 0b10000001 instead it is 0b%c%c%c%c%c%c%c%c\n"
          "test_max77958_cc_ctrl1_read PASSED: CC_CTRL1_CONFIG = 0b%c%c%c%c%c%c%c%c\n"))

  unfoldable pub test_max77958_cc_ctrl4_read : M (Option (Unit {0}))
  test_max77958_cc_ctrl4_read = do
    rp2040_log hw "test_max77958_cc_ctrl4_read started...\n" []
    rounds ←
        run_opcode hw others fuel EntryFunc.cc_ctrl4_read 0
          "test_max77958_cc_ctrl4_read ERROR: Timed out waiting for response\n"
    resume rounds (λ i. (do
      check_opcode hw 0x11 "test_max77958_cc_ctrl4_read ERROR: OPCODE should be 0x11 (got 0x%02x)\n"
          true
      check_byte hw 1 0x00
          "test_max77958_cc_ctrl4_read ERROR: OPCODE should be 0b00000000 (got 0b%c%c%c%c%c%c%c%c)\n"
          "test_max77958_cc_ctrl4_read PASSED: CC_CTRL4 = 0b%c%c%c%c%c%c%c%c\n"))

  unfoldable pub test_max77958_gpio_control_read : M (Option (Unit {0}))
  test_max77958_gpio_control_read = do
    rp2040_log hw "test_max77958_gpio_control_read started...\n" []
    rounds ←
        run_opcode hw others fuel EntryFunc.gpio_control_read 0
          "test_max77958_gpio_control_read ERROR: Timed out waiting for response\n"
    resume rounds (λ i. (do
      check_opcode hw 0x23
          "test_max77958_gpio_control_read ERROR: OPCODE should be 0x23 (got 0x%02x)\n" true
      count1 ← count_error hw 1 0
      count2 ← count_error hw 2 count1
      error_count ← count_error hw 3 count2
      byte1 ← returned hw 1
      byte2 ← returned hw 2
      byte3 ← returned hw 3
      when (not (error_count == 0)) (
          rp2040_log hw
            "test_max77958_gpio_control_read PASSED: 0x52(GPIO0-3)=0b%c%c%c%c%c%c%c%c 0x53(GPIO4-7)=0b%c%c%c%c%c%c%c%c 0x54(GPIO8)=0b%c%c%c%c%c%c%c%c\n"
            (byte_to_binary byte1 (byte_to_binary byte2 (byte_to_binary byte3 []))))))

  unfoldable pub test_max77958_gpio0_gpio1_adc_read : M (Option (Unit {0}))
  test_max77958_gpio0_gpio1_adc_read = do
    rp2040_log hw "test_max77958_gpio0_gpio1_adc_read started...\n" []
    rounds ←
        run_opcode hw others fuel EntryFunc.gpio0_gpio1_adc_read 0
          "test_max77958_gpio0_gpio1_adc_read ERROR: Timed out waiting for response\n"
    resume rounds (λ i. (do
      check_opcode hw 0x27
          "test_max77958_gpio0_gpio1_adc_read ERROR: OPCODE should be 0x27 (got 0x%02x)\n" true
      byte1 ← returned hw 1
      byte2 ← returned hw 2
      if not (byte1 == 0) || not (byte2 == 0)
          then (do
            rp2040_log hw
                "test_max77958_gpio0_gpio1_adc_read ERROR: SBU1 should be 0b00000000 (got 0b%c%c%c%c%c%c%c%c)\n"
                (byte_to_binary byte1 [])
            rp2040_log hw
                "test_max77958_gpio0_gpio1_adc_read ERROR: SBU2 should be 0b00000000 (got 0b%c%c%c%c%c%c%c%c)\n"
                (byte_to_binary byte2 []))
          else rp2040_log hw
              "test_max77958_gpio0_gpio1_adc_read PASSED: SBU1=0b%c%c%c%c%c%c%c%c SBU2=0b%c%c%c%c%c%c%c%c\n"
              (byte_to_binary byte1 (byte_to_binary byte2 []))))

  -- One of the two halves of the test, up to its loop.
  unfoldable pub request_pdos : Bool → String → M (Option ℕ)
  request_pdos mtp timed_out = do
    update_usb (λ u. record u { use_mtp_access = mtp })
    run_opcode hw others fuel EntryFunc.snk_pdo_request 0 timed_out

  -- The rest of that half, with the count of objects that it has found.
  unfoldable pub report_pdos : String → String → String → M ℕ
  report_pdos mismatch count_format pdo_format = do
    check_opcode hw 0x3e mismatch true
    count ← returned hw 1
    rp2040_log hw count_format (Arg.num count ∷ [])
    log_pdos hw pdo_format count 0
    pure count

  unfoldable pub second_pdos : ℕ → M (Option (Unit {0}))
  second_pdos mtp_pdo_count = do
    rounds ← request_pdos true "test_max77958_snk_pdo_request ERROR: Timed out waiting for RAM\n"
    resume rounds (λ i. (do
      ram_pdo_count ←
          report_pdos
            "test_max77958_snk_pdo_request ERROR: OPCODE echo mismatch for RAM (got 0x%02x)\n"
            "test_max77958_snk_pdo_request RAM PDO count = %d\n"
            "test_max77958_snk_pdo_request RAM PDO[%d] = 0x%08lx\n"
      rp2040_log hw "test_max77958_snk_pdo_request PASSED: MTP=%d PDOs, RAM=%d PDOs\n"
          (Arg.num mtp_pdo_count ∷ Arg.num ram_pdo_count ∷ [])))

  unfoldable pub after_first_pdos : Option ℕ → M (Option (Unit {0}))
  after_first_pdos none = pure none
  after_first_pdos (some i) = do
    mtp_pdo_count ←
        report_pdos
          "test_max77958_snk_pdo_request ERROR: OPCODE echo mismatch for MTP (got 0x%02x)\n"
          "test_max77958_snk_pdo_request MTP PDO count = %d\n"
          "test_max77958_snk_pdo_request MTP PDO[%d] = 0x%08lx\n"
    second_pdos mtp_pdo_count

  unfoldable pub test_max77958_snk_pdo_request : M (Option (Unit {0}))
  test_max77958_snk_pdo_request = do
    rp2040_log hw "test_max77958_snk_pdo_request started...\n" []
    rounds ← request_pdos false "test_max77958_snk_pdo_request ERROR: Timed out waiting for MTP\n"
    after_first_pdos rounds

  unfoldable pub test_max77958_get_customer_config : M (Option (Unit {0}))
  test_max77958_get_customer_config = do
    rp2040_log hw "test_max77958_get_customer_config started...\n" []
    rounds ←
        run_opcode hw others fuel EntryFunc.customer_config_read 0
          "test_max77958_get_customer_config ERROR: Timed out waiting for GPIO to finish\n"
    resume rounds (λ i. (do
      check_opcode hw 0x55 "test_max77958_get_customer_config ERROR: OPCODE should be 0x55" false
      id ← returned_word hw 2
      when (not (id == 0x0b6a)) (
          rp2040_log hw
            "test_max77958_get_customer_config ERROR: CUSTOMER_CONFIG_ID should be 0x0B6A" [])
      rev ← returned_word hw 4
      when (not (rev == 0x6860)) (
          rp2040_log hw
            "test_max77958_get_customer_config ERROR: CUSTOMER_CONFIG_REV should be 0x6860" [])
      log_byte hw "test_max77958_get_customer_config: 0x51=0x%02x\n" 0
      log_byte hw "test_max77958_get_customer_config: 0x52=0x%02x\n" 1
      byte1 ← returned hw 1
      rp2040_log hw "test_max77958_get_customer_config: 0x52=0b%c%c%c%c%c%c%c%c\n"
          (byte_to_binary byte1 [])
      log_byte hw "test_max77958_get_customer_config: 0x53=0x%02x\n" 2
      log_byte hw "test_max77958_get_customer_config: 0x54=0x%02x\n" 3
      log_byte hw "test_max77958_get_customer_config: 0x55=0x%02x\n" 4
      log_byte hw "test_max77958_get_customer_config: 0x56=0x%02x\n" 5
      log_byte hw "test_max77958_get_customer_config: 0x57=0x%02x\n" 6
      log_byte hw "test_max77958_get_customer_config: 0x58=0x%02x\n" 7
      log_byte hw "test_max77958_get_customer_config: 0x59=0x%02x\n" 8
      log_byte hw "test_max77958_get_customer_config: 0x5A=0x%02x\n" 9
      log_byte hw "test_max77958_get_customer_config: 0x5B=0x%02x\n" 10
      id_again ← returned_word hw 2
      rp2040_log hw "test_max77958_get_customer_config PASSED: CUSTOMER_CONFIG_ID = 0x%04x\n"
          (Arg.num id_again ∷ [])
      rev_again ← returned_word hw 4
      rp2040_log hw "test_max77958_get_customer_config PASSED: CUSTOMER_CONFIG_REV = 0x%04x\n"
          (Arg.num rev_again ∷ [])))
