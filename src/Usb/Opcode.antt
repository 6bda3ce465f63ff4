-- ===== src/Usb/Opcode.antt =====
-- src/max77958.c: the opcode commands, and the queue from which they are started one after another.
-- `opcode_queue` is the SDK's: its answers are the board's.
use smartphone_robot_firmwar.Base.{
  ℕ, ℤ, pos, Bool, true, false, List, [], ◌∷◌, ◌++◌, Option, none, some, ◌==◌, not, get_or, drop,
  replicate, if◌then◌else◌, bit_and, u8,
}
use smartphone_robot_firmwar.Board.Sdk.{Event, i2c0, Arg, EntryFunc, QueueEntry}
use smartphone_robot_firmwar.Board.{
  Hardware, M, pure, ◌>>=◌, ◌>>◌, assert_false, gets, ask, when, rp2040_log, queue_try_add,
}
use smartphone_robot_firmwar.Board.I2cRetry.{i2c_read_error_handling}
use smartphone_robot_firmwar.Usb.Header.{DriverHeader}
use smartphone_robot_firmwar.Usb.Transfer.{
  update_usb, clear_send_buf, put_send, fill, write_send_buf,
}
use smartphone_robot_firmwar.Usb.Config.{
  CustomerConfig, typec_mode_drp, max77958_build_customer_config_value, gpio_bool_to_int32,
}

-- `BYTE_TO_BINARY`: the characters '0' and '1' of the 8 bits, the highest first.
abbrev pub bit_char : ℕ → ℕ → Arg
bit_char byte mask = if bit_and byte mask == 0 then Arg.num 48 else Arg.num 49

abbrev pub byte_to_binary : ℕ → List Arg → List Arg
byte_to_binary byte rest =
    bit_char byte 0x80
    ∷ bit_char byte 0x40
    ∷ bit_char byte 0x20
    ∷ bit_char byte 0x10
    ∷ bit_char byte 0x08
    ∷ bit_char byte 0x04
    ∷ bit_char byte 0x02
    ∷ bit_char byte 0x01
    ∷ rest

-- The configuration that `customer_config_write` sends.
abbrev pub default_config : CustomerConfig
default_config = record {
  dbg_src_enable = false;
  dbg_snk_enable = false;
  audio_acc_enable = false;
  trysnk_enable = false;
  typec_mode = typec_mode_drp;
  mem_update_customer = false;
  moisture_enable = false;
}

module _ (hw : Hardware) where
  unfoldable pub opcode_queue_add : EntryFunc → ℕ → M (Unit {0})
  opcode_queue_add opcode_func opcode_data = do
    update_usb (λ u. record u { opcodes_finished = false })
    added ←
        ask hw.opcode_accepts
          (Event.opcode_queue_try_add (record { func = opcode_func; arg = opcode_data }))
    when (not added) (do rp2040_log hw "ERROR: opcode_queue is full" []; assert_false)
    level ← ask hw.opcode_level Event.opcode_queue_get_level
    rp2040_log hw "Added to opcode_queue. %d entries remaining\n" (Arg.num level ∷ [])

  -- The entry that was taken out of `opcode_queue` goes to the queue of core 1.
  unfoldable pub start_opcode : Option QueueEntry → M Bool
  start_opcode none = do rp2040_log hw "opcode_queue_pop: opcode_queue empty\n" []; pure false
  start_opcode (some entry) = do
    level ← ask hw.opcode_level Event.opcode_queue_get_level
    rp2040_log hw "Removed entry from opcode_queue. %d entries remaining\n" (Arg.num level ∷ [])
    added ← queue_try_add hw entry.func entry.arg
    if added
        then (do rp2040_log hw "added opcode entry to call_queue\n" []; pure true)
        else (do rp2040_log hw "ERROR: opcode_queue_pop: call_queue full\n" []; pure false)

  unfoldable pub opcode_queue_pop : M Bool
  opcode_queue_pop = do
    removed ← ask hw.opcode_removed Event.opcode_queue_try_remove
    start_opcode removed

  unfoldable pub vbus_turn_off : M (Unit {0})
  vbus_turn_off = do
    opcode_queue_add EntryFunc.gpio_set (gpio_bool_to_int32 false true)
    _ ← opcode_queue_pop
    pure tt

  unfoldable pub vbus_turn_on : M (Unit {0})
  vbus_turn_on = do
    opcode_queue_add EntryFunc.gpio_set (gpio_bool_to_int32 true true)
    _ ← opcode_queue_pop
    pure tt

module _ (hw : Hardware) (header : DriverHeader) where
  -- Every caller passes `send_buf`. The `memset` in the middle clears `sizeof &send_buf`, 4 bytes.
  unfoldable pub opcode_write : M (Unit {0})
  opcode_write = do
    buf ← gets (λ w. w.usb.send_buf)
    when (not (get_or buf 0 0 == 0x21))
        (rp2040_log hw "ERROR: buffer should always start with the 0x21 register" [])
    write_send_buf hw header 33 false
    update_usb (λ u. record u { send_buf = replicate 4 0 ++ drop 4 u.send_buf })
    put_send 0 0x41
    put_send 1 0x00
    write_send_buf hw header 2 false

  -- `memset(send_buf, 0, ...); send_buf[0] = OPCODE_WRITE; send_buf[1] = op;`
  abbrev pub start_command : ℕ → M (Unit {0})
  start_command op = do clear_send_buf; put_send 0 header.opcode_write; put_send 1 op

  unfoldable pub opcode_read : M (Unit {0})
  opcode_read = do
    clear_send_buf
    put_send 0 header.opcode_read_command
    write_send_buf hw header 1 true
    bytes ← i2c_read_error_handling hw i2c0 header.max77958_slave_p1 33 false
    update_usb (λ u. record u { op_code_return_buf = fill 33 bytes u.op_code_return_buf })
    buf ← gets (λ w. w.usb.op_code_return_buf)
    rp2040_log hw "opcode_read: 0x%02x 0x%02x 0x%02x 0x%02x\n" (
        Arg.num (get_or buf 0 0)
        ∷ Arg.num (get_or buf 1 0)
        ∷ Arg.num (get_or buf 2 0)
        ∷ Arg.num (get_or buf 3 0)
        ∷ [])

  -- The functions that only send the opcode, with the value that they all return.
  unfoldable pub simple_command : ℕ → M ℤ
  simple_command op = do start_command op; opcode_write; pure (pos 0)

  unfoldable pub bc_ctrl1_read : M ℤ
  bc_ctrl1_read = simple_command 0x01

  unfoldable pub bc_ctrl2_read : M ℤ
  bc_ctrl2_read = simple_command 0x03

  unfoldable pub control1_read : M ℤ
  control1_read = simple_command 0x05

  unfoldable pub cc_ctrl1_read : M ℤ
  cc_ctrl1_read = simple_command 0x0b

  unfoldable pub cc_ctrl4_read : M ℤ
  cc_ctrl4_read = simple_command 0x11

  unfoldable pub gpio_control_read : M ℤ
  gpio_control_read = simple_command 0x23

  unfoldable pub gpio0_gpio1_adc_read : M ℤ
  gpio0_gpio1_adc_read = simple_command 0x27

  unfoldable pub customer_config_read : M ℤ
  customer_config_read = simple_command 0x55

  unfoldable pub snk_pdo_request : M ℤ
  snk_pdo_request = do
    mtp ← gets (λ w. w.usb.use_mtp_access)
    start_command 0x3e
    put_send 2 (if mtp then 0x80 else 0x00)
    opcode_write
    pure (pos 0)

  unfoldable pub gpio_set : ℕ → M ℤ
  gpio_set gpio_val = do
    start_command header.opcode_set_gpio
    put_send 2 0x00
    put_send 3 (u8 gpio_val)
    opcode_write
    pure (pos 0)

  unfoldable pub power_swap_request : M (Unit {0})
  power_swap_request = do start_command 0x37; put_send 2 0x02; opcode_write

  unfoldable pub set_src_pdos : M ℤ
  set_src_pdos = do
    start_command header.opcode_set_source_cap
    put_send 2 0x01
    put_send 3 0x2c
    put_send 4 0x90
    put_send 5 0x01
    put_send 6 0x26
    opcode_write
    pure (pos 0)

  unfoldable pub set_snk_pdos : M ℤ
  set_snk_pdos = do
    start_command header.opcode_snk_pdo_set
    put_send 2 0x01
    put_send 3 0x2c
    put_send 4 0x91
    put_send 5 0x81
    put_send 6 0x26
    opcode_write
    pure (pos 0)

  unfoldable pub customer_config_write : M ℤ
  customer_config_write = do
    let value = max77958_build_customer_config_value default_config
    start_command 0x56
    put_send 2 value
    rp2040_log hw "customer_config_write config = 0b%c%c%c%c%c%c%c%c\n" (byte_to_binary value [])
    put_send 3 0x6a
    put_send 4 0x0b
    put_send 5 0x60
    put_send 6 0x68
    put_send 7 0x00
    put_send 8 0x64
    put_send 9 0x00
    put_send 10 0x32
    put_send 11 0x00
    opcode_write
    pure (pos 0)
