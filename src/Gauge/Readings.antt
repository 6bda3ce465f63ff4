-- ===== src/Gauge/Readings.antt =====
-- src/bq27742_g1.c: the values that the gauge reports to the phone.
use smartphone_robot_firmwar.Base.{
  ℕ, ◌^◌, Bool, false, ◌||◌, List, [], ◌∷◌, String, bit_and, ◌==◌, not, get_or, u16,
}
use smartphone_robot_firmwar.Board.Sdk.{Arg}
use smartphone_robot_firmwar.Board.{Hardware, M, pure, ◌>>=◌, ◌>>◌, when, gets, modify, rp2040_log}
use smartphone_robot_firmwar.Gauge.Transfer.{bq27742_g1_read_bytes, little_endian}

abbrev pub isd_mask : ℕ
isd_mask = 2 ^ 5

abbrev pub tdd_mask : ℕ
tdd_mask = 2 ^ 4

abbrev pub otc_mask : ℕ
otc_mask = 2 ^ 3

abbrev pub otd_mask : ℕ
otd_mask = 2 ^ 2

abbrev pub ovp_mask : ℕ
ovp_mask = 2 ^ 1

abbrev pub uvp_mask : ℕ
uvp_mask = 1

abbrev pub bathi_mask : ℕ
bathi_mask = 2 ^ 13

abbrev pub batlow_mask : ℕ
batlow_mask = 2 ^ 12

abbrev pub imax_mask : ℕ
imax_mask = 2 ^ 4

abbrev pub soc1_mask : ℕ
soc1_mask = 2 ^ 2

-- `if (flags & MASK)`
abbrev pub is_set : ℕ → ℕ → Bool
is_set flags mask = not (bit_and flags mask == 0)

abbrev pub safety_messages : List (ℕ × String)
safety_messages =
    (isd_mask, "Internal Short condition detected, ")
    ∷ (tdd_mask, "Tab Disconnect condition detected, ")
    ∷ (otc_mask, "Overtemperature in charge condition detected, ")
    ∷ (otd_mask, "Overtemperature in discharge condition detected, ")
    ∷ (ovp_mask, "Overvoltage condition detected, ")
    ∷ (uvp_mask, "Undervoltage condition detected, ")
    ∷ []

abbrev pub flag_messages : List (ℕ × String)
flag_messages =
    (bathi_mask, "High battery voltage condition BATHI detected, ")
    ∷ (batlow_mask, "Low battery voltage condition BATLOW detected, ")
    ∷ (
      2 ^ 11,
      "Temperature is < T1 Temp or > T4 Temp while charging is not active. CHG_INH detected, ",
    )
    ∷ (
      2 ^ 9,
      "Charge termination reached and FC Set Percent = -1. Or SOC > FC Percent is not -1. FC detected, ",
    )
    ∷ (2 ^ 7, "Temp < T1 Temp or > T5 Temp while charging active. CHG_SUS detected, ")
    ∷ (imax_mask, "Imax value has changed enough to interrupt. IMAX detected, ")
    ∷ (2 ^ 3, "Fast charging allowed. CHG detected, ")
    ∷ (soc1_mask, "SOC1 reached.")
    ∷ (2 ^ 1, "SOCF Set Percent reached. SOCF detected, ")
    ∷ (1, "Discharging detected. DSG detected, ")
    ∷ []

abbrev pub set_temperature : (ℕ → ℕ) → M (Unit {0})
set_temperature f =
    modify (λ w. record w { gauge = record (w.gauge) { temperature = f w.gauge.temperature } })

module _ (hw : Hardware) where
  -- A row of `if (flags & MASK){ rp2040_log(...); error = true; }`; the result is `error`.
  unfoldable pub log_set_flags : ℕ → List (ℕ × String) → M Bool
  log_set_flags flags [] = pure false
  log_set_flags flags ((mask, message) ∷ rows) = do
    when (is_set flags mask) (rp2040_log hw message [])
    rest ← log_set_flags flags rows
    pure (is_set flags mask || rest)

  unfoldable pub bq27742_g1_get_voltage : M ℕ
  bq27742_g1_get_voltage = do
    return_buf ← bq27742_g1_read_bytes hw 0x08 2
    let voltage = little_endian return_buf
    rp2040_log hw "Voltage: %d\n" (Arg.num voltage ∷ [])
    pure voltage

  unfoldable pub bq27742_g1_get_safety_stats : M ℕ
  bq27742_g1_get_safety_stats = do
    return_buf ← bq27742_g1_read_bytes hw 0x1a 2
    let low_byte = get_or return_buf 0 0
    rp2040_log hw "SafetyStats: " []
    error ← log_set_flags low_byte safety_messages
    when (not error) (rp2040_log hw "No error detected in battery protection\n" [])
    pure low_byte

  -- The static `temperature` is cleared, and after the reading it is assigned to itself: the converted
  -- value is in `temperature_`, a `float` that nothing reads, and has no counterpart here.
  unfoldable pub bq27742_g1_get_temp : M ℕ
  bq27742_g1_get_temp = do
    set_temperature (λ old. 0)
    _ ← bq27742_g1_read_bytes hw 0x06 2
    set_temperature (λ old. u16 old)
    temperature ← gets (λ w. w.gauge.temperature)
    rp2040_log hw "Temperature: %d\n" (Arg.num temperature ∷ [])
    gets (λ w. w.gauge.temperature)

  unfoldable pub bq27742_g1_get_soh : M ℕ
  bq27742_g1_get_soh = do
    return_buf ← bq27742_g1_read_bytes hw 0x2e 2
    rp2040_log hw "SOH: 0x2e=%02x, 0x2f=%02x\n"
        (Arg.num (get_or return_buf 0 0) ∷ Arg.num (get_or return_buf 1 0) ∷ [])
    rp2040_log hw "SOH: %02f\n" (Arg.num 0 ∷ [])
    pure (get_or return_buf 0 0)

  unfoldable pub bq27742_g1_get_flags : M ℕ
  bq27742_g1_get_flags = do
    return_buf ← bq27742_g1_read_bytes hw 0x0a 2
    let flags = little_endian return_buf
    rp2040_log hw "Tags: " []
    error ← log_set_flags flags flag_messages
    when (not error) (rp2040_log hw "No SystemStat errors detected" [])
    rp2040_log hw "\n" []
    pure flags
