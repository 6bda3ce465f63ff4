-- ===== src/Usb/Transfer.antt =====
-- src/max77958.c: the shared buffers and the transfers that fill and send them.
use smartphone_robot_firmwar.Base.{
  ℕ, Bool, true, false, List, [], ◌∷◌, ◌++◌, length, get_or, set, take, drop, replicate,
}
use smartphone_robot_firmwar.Board.Sdk.{i2c0, Arg}
use smartphone_robot_firmwar.Board.{Hardware, M, pure, ◌>>=◌, ◌>>◌, modify, gets, rp2040_log}
use smartphone_robot_firmwar.Board.I2cRetry.{i2c_write_error_handling, i2c_read_error_handling}
use smartphone_robot_firmwar.Usb.State.{UsbState}
use smartphone_robot_firmwar.Usb.Header.{DriverHeader}

abbrev pub update_usb : (UsbState → UsbState) → M (Unit {0})
update_usb f = modify (λ w. record w { usb = f w.usb })

abbrev pub zeros : List ℕ
zeros = replicate 33 0

-- `memset(send_buf, 0, sizeof send_buf)` and `memset(return_buf, 0, sizeof return_buf)`
abbrev pub clear_send_buf : M (Unit {0})
clear_send_buf = update_usb (λ u. record u { send_buf = zeros })

abbrev pub clear_return_buf : M (Unit {0})
clear_return_buf = update_usb (λ u. record u { return_buf = zeros })

-- `send_buf[i] = v`, for an index in the buffer.
abbrev pub put_send : ℕ → ℕ → M (Unit {0})
put_send i v = update_usb (λ u. record u { send_buf = set u.send_buf i v })

-- A buffer after the first `len` of its bytes have been read from the bus.
unfoldable pub fill : ℕ → List ℕ → List ℕ → List ℕ
fill len bytes buf = take len bytes ++ drop (length (take len bytes)) buf

module _ (hw : Hardware) (header : DriverHeader) where
  -- `i2c_write_error_handling(i2c0, MAX77958_SLAVE_P1, send_buf, len, nostop)`
  unfoldable pub write_send_buf : ℕ → Bool → M (Unit {0})
  write_send_buf len nostop = do
    buf ← gets (λ w. w.usb.send_buf)
    i2c_write_error_handling hw i2c0 header.max77958_slave_p1 (take len buf) nostop

  -- `i2c_read_error_handling(i2c0, MAX77958_SLAVE_P1, return_buf, len, false)`
  unfoldable pub read_return_buf : ℕ → M (Unit {0})
  read_return_buf len = do
    bytes ← i2c_read_error_handling hw i2c0 header.max77958_slave_p1 len false
    update_usb (λ u. record u { return_buf = fill len bytes u.return_buf })

  -- Both buffers are cleared, and `len` registers from `reg` on are read into `return_buf`.
  unfoldable pub read_registers : ℕ → ℕ → M (Unit {0})
  read_registers reg len = do
    clear_send_buf
    clear_return_buf
    put_send 0 reg
    write_send_buf 1 true
    read_return_buf len

  unfoldable pub get_interrupt_vals : M (Unit {0})
  get_interrupt_vals = read_registers header.reg_uic_int 4

  unfoldable pub get_interrupt_masks : M (Unit {0})
  get_interrupt_masks = read_registers header.reg_uic_int_m 4

  unfoldable pub write_masks : ℕ → ℕ → ℕ → M (Unit {0})
  write_masks uic cc pd = do
    clear_send_buf
    put_send 0 header.reg_uic_int_m
    put_send 1 uic
    put_send 2 cc
    put_send 3 pd
    write_send_buf 4 false

  unfoldable pub set_interrupt_masks_all_masked : M (Unit {0})
  set_interrupt_masks_all_masked = write_masks 0xff 0xff 0xff

  unfoldable pub set_interrupt_masks : M (Unit {0})
  set_interrupt_masks = write_masks 0x04 0x00 0x3f

  unfoldable pub max77958_read_register : ℕ → M ℕ
  max77958_read_register reg = do
    read_registers reg 1
    buf ← gets (λ w. w.usb.return_buf)
    pure (get_or buf 0 0)

  unfoldable pub read_reg : ℕ → M (Unit {0})
  read_reg reg = do
    read_registers reg 1
    buf ← gets (λ w. w.usb.return_buf)
    rp2040_log hw "read_reg: 0x%02x: 0x%02x\n" (Arg.num reg ∷ Arg.num (get_or buf 0 0) ∷ [])
