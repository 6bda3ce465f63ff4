-- ===== src/Motor/Scope.antt =====
-- src/drv8830.c: what the DRV8830_SCOPE_TEST build adds, with the default values of its macros. In the
-- other build `drv8830_scope_test_run` is empty and the rest does not exist.
use smartphone_robot_firmwar.Base.{
  ℕ, zero, suc, ◌+◌, ◌*◌, ◌/◌, ◌^◌, ℤ, pos, [], ◌∷◌, String, bit_and, bit_or, u8,
}
use smartphone_robot_firmwar.Board.Sdk.{Event, Arg, EntryFunc}
use smartphone_robot_firmwar.Board.{Hardware, M, pure, ◌>>=◌, ◌>>◌, call, ask, rp2040_log}
use smartphone_robot_firmwar.Board.Queue.{call_queue_try_add}
use smartphone_robot_firmwar.Motor.{
  motor_left, motor_right, set_motor_control, drv8830_clear_faults,
}

abbrev pub scope_test_control : ℕ
scope_test_control = 0x7a

abbrev pub forward_control : ℕ
forward_control = bit_or (bit_and (u8 scope_test_control) 0xfc) (2 ^ 1)

abbrev pub reverse_control : ℕ
reverse_control = bit_or (bit_and (u8 scope_test_control) 0xfc) (2 ^ 0)

-- `((int32_t)left_control << 8) | right_control`
unfoldable pub packed_controls : ℕ → ℕ → ℕ
packed_controls left_control right_control = bit_or (left_control * 2 ^ 8) right_control

unfoldable pub drv8830_scope_set_controls : ℕ → M ℤ
drv8830_scope_set_controls packed = do
  set_motor_control motor_left (u8 (bit_and (packed / 2 ^ 8) 0xff))
  set_motor_control motor_right (u8 (bit_and packed 0xff))
  pure (pos 0)

module _ (hw : Hardware) where
  -- `to_ms_since_boot(get_absolute_time())`
  unfoldable pub to_ms_since_boot : M ℕ
  to_ms_since_boot = ask hw.now_ms Event.get_absolute_time

  unfoldable pub drv8830_scope_queue_controls : ℕ → ℕ → M (Unit {0})
  drv8830_scope_queue_controls left_control right_control =
      call_queue_try_add hw EntryFunc.drv8830_scope_set_controls
        (packed_controls left_control right_control)

  unfoldable pub drv8830_log_fault_bits : String → String → ℕ → M (Unit {0})
  drv8830_log_fault_bits prefix motor faults = do
    now ← to_ms_since_boot
    rp2040_log hw
        "DRV8830_SCOPE_TEST fault_%s t_ms=%lu motor=%s raw=0x%02x ILIMIT=%d OTS=%d UVLO=%d OCP=%d FAULT=%d\n"
        (Arg.str prefix
          ∷ Arg.num now
          ∷ Arg.str motor
          ∷ Arg.num faults
          ∷ Arg.num (bit_and (faults / 2 ^ 4) 1)
          ∷ Arg.num (bit_and (faults / 2 ^ 3) 1)
          ∷ Arg.num (bit_and (faults / 2 ^ 2) 1)
          ∷ Arg.num (bit_and (faults / 2 ^ 1) 1)
          ∷ Arg.num (bit_and (faults / 2 ^ 0) 1)
          ∷ [])

  -- One of the four steps of a phase: the line, the controls and the pause.
  unfoldable pub scope_step : String → ℕ → ℕ → ℕ → M (Unit {0})
  scope_step format phase control ms = do
    now ← to_ms_since_boot
    rp2040_log hw format (Arg.num phase ∷ Arg.num now ∷ [])
    drv8830_scope_queue_controls control control
    call (Event.sleep_ms ms)

  -- The loop, with `remaining` phases to go after `i`.
  unfoldable pub scope_phases : ℕ → ℕ → M (Unit {0})
  scope_phases zero i = pure tt
  scope_phases (suc remaining) i = do
    scope_step "DRV8830_SCOPE_TEST phase=%lu direction=forward t_ms=%lu\n" (i + 1) forward_control
        750
    scope_step "DRV8830_SCOPE_TEST phase=%lu direction=off_after_forward t_ms=%lu\n" (i + 1) 0 250
    scope_step "DRV8830_SCOPE_TEST phase=%lu direction=reverse t_ms=%lu\n" (i + 1) reverse_control
        750
    scope_step "DRV8830_SCOPE_TEST phase=%lu direction=off_after_reverse t_ms=%lu\n" (i + 1) 0 250
    scope_phases remaining (suc i)

  unfoldable pub drv8830_scope_test_run : M (Unit {0})
  drv8830_scope_test_run = do
    rp2040_log hw
        "DRV8830_SCOPE_TEST START repeat=%d control=0x%02x forward=0x%02x reverse=0x%02x dwell_ms=%d off_ms=%d\n"
        (Arg.num 10
          ∷ Arg.num (u8 scope_test_control)
          ∷ Arg.num forward_control
          ∷ Arg.num reverse_control
          ∷ Arg.num 750
          ∷ Arg.num 250
          ∷ [])
    drv8830_clear_faults hw
    drv8830_scope_queue_controls 0 0
    call (Event.sleep_ms 250)
    scope_phases 10 0
    drv8830_scope_queue_controls 0 0
    call (Event.sleep_ms 50)
    now ← to_ms_since_boot
    rp2040_log hw "DRV8830_SCOPE_TEST END motors=off t_ms=%lu\n" (Arg.num now ∷ [])
