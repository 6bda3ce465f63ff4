-- ===== src/Usb/Status.antt =====
-- src/max77958.c: what the controller reports about the cable and the charger type.
use smartphone_robot_firmwar.Base.{ℕ, [], ◌∷◌, String, ◌==◌, not, bit_and, get_or, if◌then◌else◌}
use smartphone_robot_firmwar.Board.Sdk.{Arg}
use smartphone_robot_firmwar.Board.{Hardware, M, ◌>>=◌, ◌>>◌, gets, when, rp2040_log}
use smartphone_robot_firmwar.Usb.Header.{DriverHeader}
use smartphone_robot_firmwar.Usb.Transfer.{read_registers}
use smartphone_robot_firmwar.Usb.Opcode.{vbus_turn_off}

-- The texts of the `%s` arguments.
abbrev pin_text : ℕ → String
pin_text pin =
    if pin == 0x00
    then "00 (none)"
    else if pin == 0x40
    then "01 (CC1)"
    else if pin == 0x80
    then "10 (CC2)"
    else "11 (reserved)"

abbrev current_text : ℕ → String
current_text current =
    if current == 0x00
    then "00 (none)"
    else if current == 0x10
    then "01 (500mA)"
    else if current == 0x20
    then "10 (1.5A)"
    else "11 (3.0A)"

abbrev stat_text : ℕ → String
stat_text stat =
    if stat == 0
    then "000 (none)"
    else if stat == 1
    then "001 (sink)"
    else if stat == 2
    then "010 (source)"
    else if stat == 3
    then "011 (audio)"
    else if stat == 4
    then "100 (debug)"
    else if stat == 5
    then "101 (error)"
    else if stat == 6
    then "110 (disabled)"
    else "111 (debug sink)"

module _ (hw : Hardware) where
  -- The four lines that print the fields of CC_STATUS0.
  unfoldable pub log_cc_status0 : ℕ → M (Unit {0})
  log_cc_status0 cc_status0 = do
    rp2040_log hw "  CCStat: CCPinStat=%s\n" (Arg.str (pin_text (bit_and cc_status0 0xc0)) ∷ [])
    rp2040_log hw "  CCStat: CCIStat=%s\n" (Arg.str (current_text (bit_and cc_status0 0x30)) ∷ [])
    rp2040_log hw "  CCStat: CCVcnStat=%s\n"
        (Arg.str (if bit_and cc_status0 0x08 == 0 then "0 (VCONN OFF)" else "1 (VCONN ON)") ∷ [])
    rp2040_log hw "  CCStat=%s\n" (Arg.str (stat_text (bit_and cc_status0 0x07)) ∷ [])

  -- The `switch` over the connection state.
  unfoldable pub switch_ccstat : ℕ → M (Unit {0})
  switch_ccstat ccstat =
      if ccstat == 0
      then (do rp2040_log hw "CCStat: ccstat changed to no connection\n" []; vbus_turn_off hw)
      else (if ccstat == 1
          then (do rp2040_log hw "CCStat: ccstat changed to SINK\n" []; vbus_turn_off hw)
          else (if ccstat == 2
              then rp2040_log hw "CCStat: ccstat changed to SOURCE\n" []
              else rp2040_log hw "CCStat: ccstat changed to %d\n" (Arg.num ccstat ∷ [])))

  -- One `if (flag) rp2040_log(...)` over a bit of CC_STATUS1.
  unfoldable pub log_fault : ℕ → ℕ → String → M (Unit {0})
  log_fault cc_status1 mask message =
      when (not (bit_and cc_status1 mask == 0)) (rp2040_log hw message [])

  unfoldable pub log_faults : ℕ → M (Unit {0})
  log_faults cc_status1 = do
    log_fault cc_status1 0x02 "ERROR: CCStat: Moisture detected on CC (Wtr=1)\n"
    log_fault cc_status1 0x04 "ERROR: CCStat: Charger detection aborted (DetAbrt=1)\n"
    log_fault cc_status1 0x08 "ERROR: CCStat: VBUS overvoltage detected (VSafeOV=1)\n"
    log_fault cc_status1 0x10 "ERROR: CCStat: VCONN short-circuit detected (VCONN_SC=1)\n"
    log_fault cc_status1 0x20 "ERROR: CCStat: VCONN overcurrent detected (VCONN_OCP=1)\n"

module _ (hw : Hardware) (header : DriverHeader) where
  unfoldable pub on_ccstat_change : M (Unit {0})
  on_ccstat_change = do
    rp2040_log hw "CCStat: ccstat changed\n" []
    read_registers hw header 0x0c 2
    buf ← gets (λ w. w.usb.return_buf)
    log_cc_status0 hw (get_or buf 0 0)
    switch_ccstat hw (bit_and (get_or buf 0 0) 0x07)
    log_faults hw (get_or buf 1 0)

  -- The `switch` over the charger type.
  unfoldable pub log_chgtype : ℕ → M (Unit {0})
  log_chgtype chgtype =
      if chgtype == 0
      then rp2040_log hw "ChgTyp changed to nothing attached\n" []
      else (if chgtype == 1
          then rp2040_log hw "ChgTyp changed to SDP, USB cable attached\n" []
          else (if chgtype == 2
              then rp2040_log hw "ChgTyp changed to CDP, Charging Downstream Port\n" []
              else rp2040_log hw "ChgTyp changed to DCP, Dedicated charger\n" []))

  unfoldable pub on_chgtype_change : M (Unit {0})
  on_chgtype_change = do
    rp2040_log hw "chgtype changed\n" []
    read_registers hw header 0x0a 1
    buf ← gets (λ w. w.usb.return_buf)
    log_chgtype (bit_and (get_or buf 0 0) 0x03)
