-- ===== src/Usb/Irq.antt =====
-- src/max77958.c: the interrupt of the controller, its parser, and the start and end of the driver.
use smartphone_robot_firmwar.Base.{
  ℕ, ◌^◌, ℤ, pos, true, false, [], ◌∷◌, ◌==◌, ◌||◌, not, bit_and, bit_or, get_or, if◌then◌else◌, u8,
  u16,
}
use smartphone_robot_firmwar.Board.Sdk.{Event, Arg, EntryFunc}
use smartphone_robot_firmwar.Board.{Hardware, M, pure, ◌>>=◌, ◌>>◌, gets, call, when, rp2040_log}
use smartphone_robot_firmwar.Board.Queue.{call_queue_try_add}
use smartphone_robot_firmwar.Usb.Header.{DriverHeader}
use smartphone_robot_firmwar.Usb.Transfer.{
  update_usb, clear_send_buf, clear_return_buf, write_send_buf, read_return_buf, read_registers,
  get_interrupt_vals, set_interrupt_masks,
}
use smartphone_robot_firmwar.Usb.Config.{gpio_bool_to_int32}
use smartphone_robot_firmwar.Usb.Opcode.{
  opcode_read, opcode_queue_add, opcode_queue_pop, vbus_turn_off, vbus_turn_on,
}
use smartphone_robot_firmwar.Usb.Status.{on_ccstat_change, on_chgtype_change}

-- `GPIO_IRQ_EDGE_FALL`
abbrev pub interrupt_mask : ℕ
interrupt_mask = 4

module _ (hw : Hardware) where
  unfoldable pub max77958_on_interrupt : ℕ → ℕ → M (Unit {0})
  max77958_on_interrupt gpio event_mask = when (not (bit_and event_mask interrupt_mask == 0)) (do
    pin ← gets (λ w. w.usb.gpio_interrupt)
    call (Event.gpio_acknowledge_irq pin interrupt_mask)
    call_queue_try_add hw EntryFunc.max77958_parse_interrupt_vals 0
    started ← gets (λ w. w.usb.test_max77958_started)
    when started (call_queue_try_add hw EntryFunc.max77958_test_response 1))

  unfoldable pub on_pd_msg_received : M (Unit {0})
  on_pd_msg_received = do
    rp2040_log hw "Rec PD message\n" []
    call_queue_try_add hw EntryFunc.max77958_pd_msg_response 0

unfoldable pub max77958_test_response : M ℤ
max77958_test_response = do
  update_usb (λ u. record u { test_max77958_completed = true })
  pure (pos 0)

module _ (hw : Hardware) (header : DriverHeader) where
  unfoldable pub on_opcode_cmd_response : M (Unit {0})
  on_opcode_cmd_response = do
    opcode_read hw header
    started ← opcode_queue_pop hw
    when (not started) (update_usb (λ u. record u { opcodes_finished = true }))

  -- One `if (*REG & MASK){ ...; return_val |= 1 << bit; }`. The register is a byte of `return_buf`, as
  -- it is when the test is made.
  unfoldable pub on_bit : ℕ → ℕ → M (Unit {0}) → ℕ → ℕ → M ℕ
  on_bit index mask handler bit return_val = do
    buf ← gets (λ w. w.usb.return_buf)
    if bit_and (get_or buf index 0) mask == 0
        then pure return_val
        else (do handler; pure (u16 (bit_or return_val (2 ^ bit))))

  unfoldable pub parse_interrupt_vals : M ℕ
  parse_interrupt_vals = do
    get_interrupt_vals hw header
    val0 ← on_bit 0 0x80 on_opcode_cmd_response 0 0
    val1 ← on_bit 2 0x40 (rp2040_log hw "Power source ready\n" []) 1 val0
    val2 ← on_bit 2 0x80 (on_pd_msg_received hw) 2 val1
    val3 ← on_bit 0 0x02 (on_chgtype_change hw header) 3 val2
    val4 ← on_bit 1 0x01 (on_ccstat_change hw header) 4 val3
    val5 ← on_bit 1 0x02 (rp2040_log hw "CCStat changed\n" []) 5 val4
    val6 ← on_bit 1 0x04 (rp2040_log hw "CCIStat changed\n" []) 6 val5
    return_val ← on_bit 1 0x08 (rp2040_log hw "CCPinStat changed\n" []) 7 val6
    when (return_val == 0) (update_usb (λ u. record u { test_max77958_interrupt_bool = true }))
    pure return_val

  -- The labels of the `switch` are distinct in the header. Three of the cases fall through.
  unfoldable pub switch_pd_msg : ℕ → M (Unit {0})
  switch_pd_msg msg =
      if msg == header.pdmsg_prswap_srctoswap
      then rp2040_log hw "PD Message: PRSWAP_SRCTOSWAP\n" []
      else (if msg == header.pdmsg_prswap_swaptosnk
          then (do rp2040_log hw "PD Message: PRSWAP_SWAPTOSNK\n" []; vbus_turn_off hw)
          else (if msg == header.pdmsg_prswap_snktoswap
              then rp2040_log hw "PD Message: PRSWAP_SNKTOSWAP\n" []
              else (if msg == header.pdmsg_prswap_swaptosrc
                  then (do rp2040_log hw "PD Message: PRSWAP_SWAPTOSRC\n" []; vbus_turn_on hw)
                  else (let nak = msg == header.pdmsg_vdm_nak_received in
                      let busy = msg == header.pdmsg_vdm_busy_received in
                      let ack = msg == header.pdmsg_vdm_ack_received in
                      let req = msg == header.pdmsg_vdm_req_received in
                      if nak || busy || ack || req
                      then (do
                        when nak (rp2040_log hw "PD Message: VDM_NAK Received\n" [])
                        when (nak || busy) (rp2040_log hw "PD Message: VDM_BUSY_RECEIVED\n" [])
                        when (nak || busy || ack)
                            (rp2040_log hw "PD Message: VDM_ACK_RECEIVED\n" [])
                        rp2040_log hw "PD Message: VDM_REQ_RECEIVED\n" [])
                      else rp2040_log hw "PD Message: Unknown\n" []))))

  unfoldable pub pd_msg_response : M ℤ
  pd_msg_response = do
    read_registers hw header header.reg_pd_status0 1
    buf ← gets (λ w. w.usb.return_buf)
    rp2040_log hw "PD_STATUS0: 0x%02x\n" (Arg.num (get_or buf 0 0) ∷ [])
    switch_pd_msg (get_or buf 0 0)
    pure (pos 0)

  -- It logs an error for either byte, and passes all the same.
  unfoldable pub test_max77958_get_id : M (Unit {0})
  test_max77958_get_id = do
    rp2040_log hw "test_max77958_get_id started...\n" []
    clear_send_buf
    clear_return_buf
    write_send_buf hw header 1 true
    read_return_buf hw header 2
    buf ← gets (λ w. w.usb.return_buf)
    when (not (get_or buf 0 0 == 0x58))
        (rp2040_log hw "test_max77958_get_id ERROR: DEVICE_ID should be 0x58" [])
    when (not (get_or buf 1 0 == 0x02))
        (rp2040_log hw "test_max77958_get_id ERROR: DEVICE_REV should be 0x02" [])
    rp2040_log hw "test_max77958_get_id PASSED: DEVICE_ID = %x\n" (Arg.num (get_or buf 0 0) ∷ [])
    rp2040_log hw "test_max77958_get_id PASSED: DEVICE_REV = %x\n" (Arg.num (get_or buf 1 0) ∷ [])

  unfoldable pub max77958_init : ℕ → M (Unit {0})
  max77958_init gpio_interrupt = do
    update_usb (λ u. record u { gpio_interrupt = u8 gpio_interrupt })
    rp2040_log hw "max77958 init started\n" []
    call Event.opcode_queue_init
    test_max77958_get_id
    set_interrupt_masks hw header
    pin ← gets (λ w. w.usb.gpio_interrupt)
    call (Event.gpio_init pin)
    call (Event.gpio_put pin 0)
    call (Event.gpio_set_dir pin false)
    call (Event.gpio_pull_up pin)
    call (Event.gpio_set_irq_enabled pin interrupt_mask true)
    get_interrupt_vals hw header
    opcode_queue_add hw EntryFunc.gpio_set (gpio_bool_to_int32 false false)
    opcode_queue_add hw EntryFunc.gpio_set (gpio_bool_to_int32 false true)
    opcode_queue_add hw EntryFunc.customer_config_write 0
    _ ← opcode_queue_pop hw
    rp2040_log hw "max77958 init finished\n" []
    on_ccstat_change hw header
