-- ===== src/Usb/Config.antt =====
-- src/max77958.c and include/max77958.h: the customer configuration and the GPIO register as bytes.
use smartphone_robot_firmwar.Base.{ℕ, ◌*◌, ◌^◌, Bool, bit_or, if◌then◌else◌, u8}

pub data TypecMode : Type 0 where
  typec_mode_src typec_mode_snk typec_mode_drp : TypecMode

pub record CustomerConfig : Type 0 where
  pub dbg_src_enable : Bool
  pub dbg_snk_enable : Bool
  pub audio_acc_enable : Bool
  pub trysnk_enable : Bool
  pub typec_mode : TypecMode
  pub mem_update_customer : Bool
  pub moisture_enable : Bool

-- `X_DISABLE` is `0 << bit` and `X_ENABLE` is `1 << bit`.
abbrev pub enable_bit : ℕ → Bool → ℕ
enable_bit bit enabled = if enabled then 1 * 2 ^ bit else 0 * 2 ^ bit

-- `TYPEC_SRC`, `TYPEC_SNK` and `TYPEC_DRP`. The `default` case, for a value that is none of the
-- enumerators, has no counterpart: no code of the firmware makes such a value.
unfoldable pub typec_bits : TypecMode → ℕ
typec_bits typec_mode_src = 0 * 2 ^ 4
typec_bits typec_mode_snk = 1 * 2 ^ 4
typec_bits typec_mode_drp = 2 * 2 ^ 4

-- Each line is a `val |= ...` in a `uint8_t`.
unfoldable pub max77958_build_customer_config_value : CustomerConfig → ℕ
max77958_build_customer_config_value config =
    let val1 = u8 (bit_or 0 (enable_bit 0 config.dbg_src_enable)) in
    let val2 = u8 (bit_or val1 (enable_bit 1 config.dbg_snk_enable)) in
    let val3 = u8 (bit_or val2 (enable_bit 2 config.audio_acc_enable)) in
    let val4 = u8 (bit_or val3 (enable_bit 3 config.trysnk_enable)) in
    let val5 = u8 (bit_or val4 (typec_bits config.typec_mode)) in
    let val6 = u8 (bit_or val5 (enable_bit 6 config.mem_update_customer)) in
    u8 (bit_or val6 (enable_bit 7 config.moisture_enable))

abbrev pub bool_bit : Bool → ℕ
bool_bit b = if b then 1 else 0

unfoldable pub gpio_bool_to_int32 : Bool → Bool → ℕ
gpio_bool_to_int32 gpio4 gpio5 =
    bit_or (bit_or (bit_or (bool_bit gpio5 * 2 ^ 3) (1 * 2 ^ 2)) (bool_bit gpio4 * 2 ^ 1))
      (1 * 2 ^ 0)
