-- ===== src/Robot/Devices.antt =====
-- Devices whose registers, counters and voltages hold still while the state is collected, and what the
-- firmware reads from each of them on a bus that acknowledges.
use smartphone_robot_firmwar.Base.{
  ℕ, ◌+◌, ◌*◌, List, [], ◌∷◌, String, false, ◌==◌, ◌||◌, u8, u16, ◌≡◌, refl, arith, not, get_or,
}
use smartphone_robot_firmwar.Board.Sdk.{Event}
use smartphone_robot_firmwar.Board.{Hardware, gets, ◌>>=◌, when, rp2040_log}
use smartphone_robot_firmwar.Board.Bus.{BusAcks, write_acked, read_acked}
use smartphone_robot_firmwar.Board.Gives.{
  Result, Gives, Anything, Gives-pure, Gives-any, Gives-bind, Gives->>=, Gives->>, Gives-if,
  log-Gives, when_log-Gives,
}
use smartphone_robot_firmwar.Motor.Faults.{queried, sent_clear}
use smartphone_robot_firmwar.Gauge.Transfer.{bq27742_g1_read_bytes, little_endian}
use smartphone_robot_firmwar.Gauge.Laws.Reports.{
  reading2, little_endian_lem, bq27742_g1_get_temp_lem,
}
use smartphone_robot_firmwar.Gauge.Readings.{
  log_set_flags, is_set, safety_messages, flag_messages, bq27742_g1_get_voltage,
  bq27742_g1_get_safety_stats, bq27742_g1_get_temp, bq27742_g1_get_soh, bq27742_g1_get_flags,
}
use smartphone_robot_firmwar.Charger.Details.{
  chg_cnfg_from, log_case, max77976_read_register, log_chgin, log_charge, log_bypass,
  max77976_get_chg_details,
}
use smartphone_robot_firmwar.Wireless.{ncp3901_adc0, stwlc38jrm_adc1}

-- The two bytes at a register of the gauge, the counts of the encoders, the voltages at the converter's
-- inputs, and the memory behind the charger's `send_buf`.
pub record Devices : Type 0 where
  pub gauge_low : ℕ → ℕ
  pub gauge_high : ℕ → ℕ
  pub count : ℕ → ℕ
  pub voltage : ℕ → ℕ
  pub behind : List ℕ

-- The board answers with these, and a motor's fault register reads 0 after it was cleared.
pub record Answers (hw : Hardware) (d : Devices) : Type 0 where
  pub acks : BusAcks hw
  pub gauge :
      (register : ℕ) (t : List Event)
      → hw.read_bytes (reading2 register t) ≡ d.gauge_low register ∷ d.gauge_high register ∷ []
  pub count :
      (i : ℕ) (t : List Event)
      → hw.encoder_count (Event.quadrature_encoder_get_count i ∷ t) ≡ d.count i
  pub voltage :
      (input : ℕ) (t : List Event)
      → hw.adc_value (Event.adc_read ∷ Event.adc_select_input input ∷ t) ≡ d.voltage input
  pub behind : (t : List Event) → hw.past_send_buf t ≡ d.behind
  pub clears :
      (addr : ℕ) (t : List Event) → hw.read_bytes (queried addr (sent_clear addr t)) ≡ 0 ∷ []

-- A byte, and a number of two, the low one first.
abbrev pub gauge_byte : Devices → ℕ → ℕ
gauge_byte d register = u8 (d.gauge_low register)

abbrev pub gauge_word : Devices → ℕ → ℕ
gauge_word d register = u8 (d.gauge_high register) * 256 + u8 (d.gauge_low register)

abbrev gauge_bytes : Devices → ℕ → List ℕ
gauge_bytes d register = u8 (d.gauge_low register) ∷ u8 (d.gauge_high register) ∷ []

word_from :
    (d : Devices) (register : ℕ) (bytes : List ℕ)
    → bytes ≡ gauge_bytes d register
    → little_endian bytes ≡ gauge_word d register
word_from d register bytes e = rw e (
    little_endian_lem (u8 (d.gauge_low register)) (u8 (d.gauge_high register)) [] (omega arith)
      (omega arith))

byte_from :
    (d : Devices) (register : ℕ) (bytes : List ℕ)
    → bytes ≡ gauge_bytes d register
    → get_or bytes 0 0 ≡ gauge_byte d register
byte_from d register bytes e = rw e refl

module _ (hw : Hardware) (d : Devices) (answers : Answers hw d) where
  bytes-Gives :
      (register : ℕ)
      → Gives (λ bytes. bytes ≡ gauge_bytes d register) (bq27742_g1_read_bytes hw register 2)
  unfolding bq27742_g1_read_bytes Result
  bytes-Gives register = record {
    at = λ w. simp (
      bq27742_g1_read_bytes,
      ◌>>=◌,
      write_acked hw answers.acks,
      read_acked hw answers.acks,
      answers.gauge register w.trace,
    );
  }

  flags-Gives :
      (flags : ℕ) (rows : List (ℕ × String)) → Gives Anything (log_set_flags hw flags rows)
  unfolding log_set_flags
  flags-Gives flags [] = Gives-any false
  flags-Gives flags ((mask, message) ∷ rows) =
      Gives->> Anything (when (is_set flags mask) (rp2040_log hw message [])) _
        (when_log-Gives hw (is_set flags mask) message)
        (Gives->>= Anything (log_set_flags hw flags rows) _ (flags-Gives flags rows)
          (λ b. Gives-any (is_set flags mask || b)))

  pub voltage-Gives : Gives (λ v. v ≡ gauge_word d 0x08) (bq27742_g1_get_voltage hw)
  unfolding bq27742_g1_get_voltage
  voltage-Gives = Gives-bind _ _ (bq27742_g1_read_bytes hw 0x08 2) _ (bytes-Gives 0x08) (λ b e.
      Gives->> _ (rp2040_log hw _ _) _ (log-Gives hw _ _) (Gives-pure _ _ (word_from d 0x08 b e)))

  pub safety-Gives : Gives (λ v. v ≡ gauge_byte d 0x1a) (bq27742_g1_get_safety_stats hw)
  unfolding bq27742_g1_get_safety_stats
  safety-Gives = Gives-bind _ _ (bq27742_g1_read_bytes hw 0x1a 2) _ (bytes-Gives 0x1a) (λ b e.
      Gives->> _ (rp2040_log hw _ _) _ (log-Gives hw _ _) (
        Gives->>= _ (log_set_flags hw (get_or b 0 0) safety_messages) _ (flags-Gives _ _) (λ err.
          Gives->> _ (when (not err) _) _ (when_log-Gives hw (not err) _)
            (Gives-pure _ _ (byte_from d 0x1a b e)))))

  pub temp-Gives : Gives (λ v. v ≡ 0) (bq27742_g1_get_temp hw)
  unfolding Result
  temp-Gives = record { at = λ w. rw (bq27742_g1_get_temp_lem hw w answers.acks) refl }

  pub soh-Gives : Gives (λ v. v ≡ gauge_byte d 0x2e) (bq27742_g1_get_soh hw)
  unfolding bq27742_g1_get_soh
  soh-Gives = Gives-bind _ _ (bq27742_g1_read_bytes hw 0x2e 2) _ (bytes-Gives 0x2e) (λ b e.
      Gives->> _ (rp2040_log hw _ _) _ (log-Gives hw _ _) (
        Gives->> _ (rp2040_log hw _ _) _ (log-Gives hw _ _)
          (Gives-pure _ _ (byte_from d 0x2e b e))))

  pub get_flags-Gives : Gives (λ v. v ≡ gauge_word d 0x0a) (bq27742_g1_get_flags hw)
  unfolding bq27742_g1_get_flags
  get_flags-Gives = Gives-bind _ _ (bq27742_g1_read_bytes hw 0x0a 2) _ (bytes-Gives 0x0a) (λ b e.
      Gives->> _ (rp2040_log hw _ _) _ (log-Gives hw _ _) (
        Gives->>= _ (log_set_flags hw (little_endian b) flag_messages) _ (flags-Gives _ _) (λ err.
          Gives->> _ (when (not err) _) _ (when_log-Gives hw (not err) _) (
            Gives->> _ (rp2040_log hw _ _) _ (log-Gives hw _ _)
              (Gives-pure _ _ (word_from d 0x0a b e))))))

  pub adc0-Gives : Gives (λ v. v ≡ u16 (d.voltage 0)) (ncp3901_adc0 hw)
  unfolding ncp3901_adc0 Result
  adc0-Gives = record { at = λ w. rw (answers.voltage 0 w.trace) refl }

  pub adc1-Gives : Gives (λ v. v ≡ u16 (d.voltage 1)) (stwlc38jrm_adc1 hw)
  unfolding stwlc38jrm_adc1 Result
  adc1-Gives = record { at = λ w. rw (answers.voltage 1 w.trace) refl }

  register-Gives : (register old : ℕ) → Gives Anything (max77976_read_register hw register old)
  unfolding max77976_read_register Result
  register-Gives register old = record {
    at = λ w.
        simp
          (max77976_read_register, ◌>>=◌, write_acked hw answers.acks, read_acked hw answers.acks)
          tt;
  }

  case-Gives : (value : ℕ) (rows : List (ℕ × String)) → Gives Anything (log_case hw value rows)
  unfolding log_case
  case-Gives value [] = Gives-any tt
  case-Gives value ((label, message) ∷ rows) =
      Gives-if Anything (value == label) (rp2040_log hw message []) (log_case hw value rows)
        (log-Gives hw message []) (case-Gives value rows)

  chgin-Gives : (details : ℕ) → Gives Anything (log_chgin hw details)
  unfolding log_chgin
  chgin-Gives details = search (Gives->>, log-Gives hw, case-Gives) depth 20

  charge-Gives : (details : ℕ) → Gives Anything (log_charge hw details)
  unfolding log_charge
  charge-Gives details = search (Gives->>, log-Gives hw, case-Gives) depth 20

  bypass-Gives : (details : ℕ) → Gives Anything (log_bypass hw details)
  unfolding log_bypass
  bypass-Gives details = search (Gives->>, log-Gives hw, case-Gives) depth 20

  behind-Gives : Gives (λ v. v ≡ d.behind) (gets (λ w. hw.past_send_buf w.trace))
  unfolding Result
  behind-Gives = record { at = λ w. answers.behind w.trace }

  from_behind : (b : List ℕ) → b ≡ d.behind → chg_cnfg_from hw b ≡ chg_cnfg_from hw d.behind
  from_behind b e = rw e refl

  pub details-Gives : Gives (λ v. v ≡ chg_cnfg_from hw d.behind) (max77976_get_chg_details hw)
  unfolding max77976_get_chg_details
  details-Gives = Gives->>= _ (max77976_read_register hw 0x13 0) _ (register-Gives _ _) (λ a.
      Gives->> _ (log_chgin hw a) _ (chgin-Gives a) (
        Gives->>= _ (max77976_read_register hw 0x14 a) _ (register-Gives _ _) (λ b.
          Gives->> _ (log_charge hw b) _ (charge-Gives b) (
            Gives->>= _ (max77976_read_register hw 0x15 b) _ (register-Gives _ _) (λ c.
              Gives->> _ (log_bypass hw c) _ (bypass-Gives c) (
                Gives->>= _ (max77976_read_register hw 0x16 c) _ (register-Gives _ _) (λ k.
                  Gives->> _ (rp2040_log hw _ _) _ (log-Gives hw _ _) (
                    Gives-bind _ _ (gets (λ w. hw.past_send_buf w.trace)) _ behind-Gives
                      (λ s e. Gives-pure _ _ (from_behind s e))))))))))
