-- ===== src/Charger/Details.antt =====
-- src/max77976.c: the details that the charger reports.
use smartphone_robot_firmwar.Base.{
  ℕ, ◌*◌, ◌/◌, ◌^◌, true, false, List, [], ◌∷◌, String, bit_and, bit_or, ◌==◌, if◌then◌else◌,
  get_or, u8, u32,
}
use smartphone_robot_firmwar.Board.Sdk.{i2c1, Arg}
use smartphone_robot_firmwar.Board.{Hardware, M, pure, ◌>>=◌, ◌>>◌, gets, rp2040_log}
use smartphone_robot_firmwar.Board.I2cRetry.{i2c_write_error_handling, i2c_read_error_handling}

abbrev pub max77976_addr : ℕ
max77976_addr = 0x6b

abbrev chgin_dtls_messages : List (ℕ × String)
chgin_dtls_messages =
    (
      0,
      "VBUS is invalid. VCHGIN rising: VCHGIN < VCHGIN_UVLO. VCHGIN falling: VCHGIN < VCHGIN_REG (AICL)",
    )
    ∷ (1, "VBUS is invalid. VCHGIN < VBATT + VCHGIN2SYS and VCHGIN > VCHGIN_UVLO")
    ∷ (2, "VBUS is invalid. VCHGIN > VCHGIN_OVLO")
    ∷ (
      3,
      "VBUS is valid. VCHGIN > VCHGIN_UVLO and VCHGIN > VBATT + VCHGIN2SYS and VCHGIN < VCHGIN_OVLO",
    )
    ∷ []

abbrev treg_messages : List (ℕ × String)
treg_messages =
    (
      0,
      "The junction temperature is less than the threshold set by REGTEMP and the full charge current limit is available",
    )
    ∷ (
      1,
      "The junction temperature is greater than the threshold set by REGTEMP and the charge current limit may be folding back to reduce power dissipation.",
    )
    ∷ []

abbrev bat_dtls_messages : List (ℕ × String)
bat_dtls_messages =
    (0, "Battery Removal")
    ∷ (1, "Battery Prequalification Voltage")
    ∷ (2, "Battery Timer Fault")
    ∷ (3, "Battery Regular Voltage")
    ∷ (4, "Battery Low Voltage")
    ∷ (5, "Battery Overvoltage")
    ∷ (6, "Reserved")
    ∷ (7, "Battery Only")
    ∷ []

abbrev chg_dtls_messages : List (ℕ × String)
chg_dtls_messages =
    (0, "Charger is in dead-battery prequalification or low-battery prequalification mode.")
    ∷ (1, "Charger is in fast-charge constant current mode.")
    ∷ (2, "Charger is in fast-charge constant voltage mode.")
    ∷ (3, "Charger is in top-off mode.")
    ∷ (4, "Charger is in done mode.")
    ∷ (5, "Reserved")
    ∷ (6, "Charger is in timer-fault mode.")
    ∷ (7, "Charger is suspended because QBATT is disabled")
    ∷ (8, "Charger is off, charger input invalid and/or charger is disabled.")
    ∷ (9, "Reserved")
    ∷ (10, "Charger is off and the junction temperature is > TSHDN.")
    ∷ (11, "Charger is off because the watchdog timer expired")
    ∷ (12, "Charger is suspended or charge current or voltage is reduced based on JEITA control.")
    ∷ (13, "Charger is suspended because battery removal is detected on THM pin.")
    ∷ (14, "Charger is suspended because SUSPEND pin is high.")
    ∷ (15, "Reserved")
    ∷ []

abbrev byp_dtls_messages : List (ℕ × String)
byp_dtls_messages =
    (0, "The bypass node is okay.")
    ∷ (1, "OTG_ILIM when CHG_CNFG_00.MODE=0xA or 0xE or 0xF")
    ∷ (2, "BSTILIM")
    ∷ (4, "BCKNegILIM")
    ∷ (8, "BST_SWON_DONE")
    ∷ []

module _ (hw : Hardware) where
  -- A `switch` whose cases only log.
  unfoldable pub log_case : ℕ → List (ℕ × String) → M (Unit {0})
  log_case value [] = pure tt
  log_case value ((label, message) ∷ rows) =
      let rest = log_case value rows in if value == label then rp2040_log hw message [] else rest

  -- One register, read into `return_buf[0]`, which held `old`.
  unfoldable pub max77976_read_register : ℕ → ℕ → M ℕ
  max77976_read_register register old = do
    i2c_write_error_handling hw i2c1 max77976_addr (register ∷ []) true
    return_buf ← i2c_read_error_handling hw i2c1 max77976_addr 1 false
    pure (get_or return_buf 0 old)

  unfoldable pub log_chgin : ℕ → M (Unit {0})
  log_chgin details = do
    let chgin_dtls = bit_and details 0x60 / 2 ^ 5
    rp2040_log hw "CHG_DETAILS_00: 0x%02x\n CHGIN_DTLS: 0x%02x\n"
        (Arg.num details ∷ Arg.num chgin_dtls ∷ [])
    rp2040_log hw "CHG_DETAILS_00_CHGIN_DTLS: " []
    log_case chgin_dtls chgin_dtls_messages
    rp2040_log hw "\n" []

  unfoldable pub log_charge : ℕ → M (Unit {0})
  log_charge details = do
    let treg = bit_and details (2 ^ 7) / 2 ^ 7
    let bat_dtls = bit_and details 0x70 / 2 ^ 4
    let chg_dtls = bit_and details 0xf
    rp2040_log hw "CHG_DETAILS_01: 0x%02x\n TREG: 0x%02x\n BAT_DTLS: 0x%02x\n CHG_DTLS: 0x%02x\n"
        (Arg.num details ∷ Arg.num treg ∷ Arg.num bat_dtls ∷ Arg.num chg_dtls ∷ [])
    rp2040_log hw "CHG_DETAILS_01_TREG: " []
    log_case treg treg_messages
    rp2040_log hw "\n" []
    rp2040_log hw "CHG_DETAILS_01_BAT_DTLS: " []
    log_case bat_dtls bat_dtls_messages
    rp2040_log hw "\n" []
    rp2040_log hw "CHG_DETAILS_01_CHG_DTLS: " []
    log_case chg_dtls chg_dtls_messages
    rp2040_log hw "\n" []

  unfoldable pub log_bypass : ℕ → M (Unit {0})
  log_bypass details = do
    rp2040_log hw "CHG_DETAILS_02_BYP_DTLS: " []
    log_case (bit_and details 0x0f) byp_dtls_messages
    rp2040_log hw "\n" []

  -- `(send_buf[4] << 24) | ...`: the 4 bytes behind the 4 bytes of `send_buf`.
  unfoldable pub chg_cnfg_from : List ℕ → ℕ
  chg_cnfg_from behind = u32 (
      bit_or
        (bit_or (bit_or (u8 (get_or behind 0 0) * 2 ^ 24) (u8 (get_or behind 1 0) * 2 ^ 16))
          (u8 (get_or behind 2 0) * 2 ^ 8))
        (u8 (get_or behind 3 0)))

  unfoldable pub max77976_get_chg_details : M ℕ
  max77976_get_chg_details = do
    chg_details_00 ← max77976_read_register 0x13 0
    log_chgin chg_details_00
    chg_details_01 ← max77976_read_register 0x14 chg_details_00
    log_charge chg_details_01
    chg_details_02 ← max77976_read_register 0x15 chg_details_01
    log_bypass chg_details_02
    chg_cnfg_00 ← max77976_read_register 0x16 chg_details_02
    rp2040_log hw "CHG_CNFG_00: 0x%x\n" (Arg.num (bit_and chg_cnfg_00 0x0f) ∷ [])
    behind ← gets (λ w. hw.past_send_buf w.trace)
    pure (chg_cnfg_from behind)

  unfoldable pub max77976_log_current_limit : M (Unit {0})
  max77976_log_current_limit = do
    chgin_ilim ← max77976_read_register 0x1f 0
    chg_cc ← max77976_read_register 0x18 0
    rp2040_log hw "CHGIN_ILIM: 0x%02x\n" (Arg.num (bit_and chgin_ilim 0x3f) ∷ [])
    rp2040_log hw "CHG_CC: 0x%02x\n" (Arg.num (bit_and chg_cc 0x7f) ∷ [])

  unfoldable pub max77976_toggle_led : M (Unit {0})
  max77976_toggle_led = do
    stat_cnfg ← max77976_read_register 0x24 0
    let stat_en = bit_and stat_cnfg (2 ^ 7) / 2 ^ 7
    if stat_en == 0
        then i2c_write_error_handling hw i2c1 max77976_addr (0x24 ∷ 0x80 ∷ []) false
        else i2c_write_error_handling hw i2c1 max77976_addr (0x24 ∷ 0x00 ∷ []) false
