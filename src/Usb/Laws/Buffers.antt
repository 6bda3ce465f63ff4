-- ===== src/Usb/Laws/Buffers.antt =====
-- src/max77958.c: the transfers and the commands keep what speaks neither of the buffers nor of the
-- interrupts and the opcode queue.
use smartphone_robot_firmwar.Base.{ℕ, pos, Bool, false, List, ◌≡◌, refl}
use smartphone_robot_firmwar.Board.Sdk.{EntryFunc}
use smartphone_robot_firmwar.Board.{Hardware, World}
use smartphone_robot_firmwar.Board.Keeps.{
  Keeps, keeps, Keeps-pure, Keeps->>=, Keeps->>, Keeps-gets, Keeps-when,
}
use smartphone_robot_firmwar.Board.Calm.{
  Calm, ack-Keeps, log-Keeps, write-Keeps, read-Keeps, call_queue-Keeps,
}
use smartphone_robot_firmwar.Usb.State.{UsbState}
use smartphone_robot_firmwar.Usb.Header.{DriverHeader}
use smartphone_robot_firmwar.Usb.Transfer.{
  update_usb, clear_send_buf, clear_return_buf, put_send, write_send_buf, read_return_buf,
  read_registers, get_interrupt_vals,
}
use smartphone_robot_firmwar.Usb.Opcode.{
  start_command, opcode_write, opcode_read, simple_command, snk_pdo_request, gpio_set,
  customer_config_write,
}
use smartphone_robot_firmwar.Usb.Irq.{
  max77958_on_interrupt, max77958_test_response, on_pd_msg_received,
}

module _ (P : World → Type 0) (calm : Calm P) where
  -- An update that leaves `opcodes_finished` alone.
  pub update-Keeps :
      (f : UsbState → UsbState)
      → ((u : UsbState) → (f u).opcodes_finished ≡ u.opcodes_finished)
      → Keeps P (update_usb f)
  update-Keeps f e = keeps (λ w h. calm.usb w (f w.usb) (e w.usb) h)

  sent-Keeps : (f : UsbState → List ℕ) → Keeps P (update_usb (λ u. record u { send_buf = f u }))
  sent-Keeps f = update-Keeps _ (λ u. refl)

  returned-Keeps :
      (f : UsbState → List ℕ) → Keeps P (update_usb (λ u. record u { op_code_return_buf = f u }))
  returned-Keeps f = update-Keeps _ (λ u. refl)

  pub clear_send-Keeps : Keeps P clear_send_buf
  clear_send-Keeps = update-Keeps _ (λ u. refl)

  pub clear_return-Keeps : Keeps P clear_return_buf
  clear_return-Keeps = update-Keeps _ (λ u. refl)

  pub put-Keeps : (i v : ℕ) → Keeps P (put_send i v)
  put-Keeps i v = update-Keeps _ (λ u. refl)

  pub test_response-Keeps : Keeps P max77958_test_response
  unfolding max77958_test_response
  test_response-Keeps = Keeps->> P _ _ (update-Keeps _ (λ u. refl)) (Keeps-pure P (pos 0))

  module _ (hw : Hardware) where
    pub on_interrupt-Keeps :
        (gpio event_mask : ℕ) → Keeps P (max77958_on_interrupt hw gpio event_mask)
    unfolding max77958_on_interrupt
    on_interrupt-Keeps gpio event_mask = Keeps-when P _ _ (
        Keeps-gets P (λ w. w.usb.gpio_interrupt) _
          (λ pin. Keeps->> P _ _ (ack-Keeps P calm pin 4) (
            Keeps->> P _ _ (call_queue-Keeps P calm hw EntryFunc.max77958_parse_interrupt_vals 0) (
              Keeps-gets P (λ w. w.usb.test_max77958_started) _
                (λ b.
                  Keeps-when P b _
                    (call_queue-Keeps P calm hw EntryFunc.max77958_test_response 1))))))

    pub pd_msg-Keeps : Keeps P (on_pd_msg_received hw)
    unfolding on_pd_msg_received
    pd_msg-Keeps =
        Keeps->> P _ _ (log-Keeps P calm hw _ _)
          (call_queue-Keeps P calm hw EntryFunc.max77958_pd_msg_response 0)

    module _ (header : DriverHeader) where
      pub send-Keeps : (len : ℕ) (nostop : Bool) → Keeps P (write_send_buf hw header len nostop)
      unfolding write_send_buf
      send-Keeps len nostop =
          Keeps-gets P (λ w. w.usb.send_buf) _ (λ buf. write-Keeps P calm hw _ _ _ nostop)

      pub receive-Keeps : (len : ℕ) → Keeps P (read_return_buf hw header len)
      unfolding read_return_buf
      receive-Keeps len =
          Keeps->>= P _ _ (read-Keeps P calm hw _ _ len false) (λ bytes. update-Keeps _ (λ u. refl))

      pub registers-Keeps : (reg len : ℕ) → Keeps P (read_registers hw header reg len)
      unfolding read_registers
      registers-Keeps reg len =
          search
            (Keeps->>, clear_send-Keeps, clear_return-Keeps, put-Keeps, send-Keeps, receive-Keeps)
            depth 12

      pub interrupt_vals-Keeps : Keeps P (get_interrupt_vals hw header)
      unfolding get_interrupt_vals
      interrupt_vals-Keeps = registers-Keeps header.reg_uic_int 4

      opcode_write-Keeps : Keeps P (opcode_write hw header)
      unfolding opcode_write
      opcode_write-Keeps =
          search (Keeps-gets, Keeps->>, Keeps-when, sent-Keeps, send-Keeps, log-Keeps P calm hw)
            depth 12

      pub opcode_read-Keeps : Keeps P (opcode_read hw header)
      unfolding opcode_read
      opcode_read-Keeps =
          search
            (
              Keeps->>=,
              Keeps-gets,
              Keeps->>,
              clear_send-Keeps,
              returned-Keeps,
              put-Keeps,
              send-Keeps,
              read-Keeps P calm hw,
              log-Keeps P calm hw,
            )
            depth 12

      start-Keeps : (op : ℕ) → Keeps P (start_command hw header op)
      start-Keeps op =
          Keeps->> P _ _ clear_send-Keeps
            (Keeps->> P _ _ (put-Keeps 0 header.opcode_write) (put-Keeps 1 op))

      pub simple-Keeps : (op : ℕ) → Keeps P (simple_command hw header op)
      unfolding simple_command
      simple-Keeps op =
          Keeps->> P _ _ (start-Keeps op) (Keeps->> P _ _ opcode_write-Keeps (Keeps-pure P (pos 0)))

      pub snk_pdo-Keeps : Keeps P (snk_pdo_request hw header)
      unfolding snk_pdo_request
      snk_pdo-Keeps =
          Keeps-gets P (λ w. w.usb.use_mtp_access) _
            (λ mtp. Keeps->> P _ _ (start-Keeps 0x3e) (
              Keeps->> P _ _ (put-Keeps 2 _)
                (Keeps->> P _ _ opcode_write-Keeps (Keeps-pure P (pos 0)))))

      pub gpio_set-Keeps : (gpio_val : ℕ) → Keeps P (gpio_set hw header gpio_val)
      unfolding gpio_set
      gpio_set-Keeps gpio_val = Keeps->> P _ _ (start-Keeps header.opcode_set_gpio) (
          Keeps->> P _ _ (put-Keeps 2 0) (
            Keeps->> P _ _ (put-Keeps 3 _)
              (Keeps->> P _ _ opcode_write-Keeps (Keeps-pure P (pos 0)))))

      pub config_write-Keeps : Keeps P (customer_config_write hw header)
      unfolding customer_config_write
      config_write-Keeps =
          search
            (
              Keeps->>,
              Keeps-pure,
              clear_send-Keeps,
              put-Keeps,
              opcode_write-Keeps,
              log-Keeps P calm hw,
            )
            depth 24
