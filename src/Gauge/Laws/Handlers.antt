-- ===== src/Gauge/Laws/Handlers.antt =====
-- src/bq27742_g1.c: what the gauge's interrupt handler and its parser keep, for a predicate that the
-- drivers leave alone and that the two operations on the gauge's pin keep.
use smartphone_robot_firmwar.Base.{ℕ, Bool, not, [], String, ◌==◌}
use smartphone_robot_firmwar.Board.Sdk.{Event}
use smartphone_robot_firmwar.Board.{
  Hardware, World, M, pure, ◌>>◌, call, when, gpio_get, rp2040_log,
}
use smartphone_robot_firmwar.Board.Keeps.{
  Keeps, keeps, Keeps-pure, Keeps->>=, Keeps->>, Keeps-gets, Keeps-when, Post-if_at,
}
use smartphone_robot_firmwar.Board.Calm.{
  Calm, ack-Keeps, log-Keeps, get-Keeps, write-Keeps, read-Keeps,
}
use smartphone_robot_firmwar.Gauge.Transfer.{bq27742_g1_read_bytes, bq27742_g1_control}
use smartphone_robot_firmwar.Gauge.Readings.{is_set, imax_mask}
use smartphone_robot_firmwar.Gauge.Irq.{
  bq27742_g1_rearm_assert_irq, rearm_if_high, bq27742_g1_queue_parse_interrupt,
  bq27742_g1_on_interrupt, report_interrupt, log_if_set, clear_imax_if_set,
  bq27742_g1_parse_interrupt_vals,
}

module _ (P : World → Type 0) (calm : Calm P) (hw : Hardware)
    (rearm-Keeps : Keeps P bq27742_g1_rearm_assert_irq) where
  pub rearm_if_high-Keeps : Keeps P (rearm_if_high hw)
  unfolding rearm_if_high
  rearm_if_high-Keeps = keeps (λ w h.
      (Keeps->>= P (gpio_get hw w.gauge.gpio_interrupt)
          (λ high. when high bq27742_g1_rearm_assert_irq)
          (get-Keeps P calm hw w.gauge.gpio_interrupt)
          (λ high. Keeps-when P high bq27742_g1_rearm_assert_irq rearm-Keeps)).at
        w h)

  bytes-Keeps : (command len : ℕ) → Keeps P (bq27742_g1_read_bytes hw command len)
  unfolding bq27742_g1_read_bytes
  bytes-Keeps command len =
      search (Keeps->>=, Keeps->>, write-Keeps P calm hw, read-Keeps P calm hw)

  control-Keeps : (code : ℕ) → Keeps P (bq27742_g1_control hw code)
  unfolding bq27742_g1_control
  control-Keeps code = search (Keeps->>=, Keeps->>, write-Keeps P calm hw, read-Keeps P calm hw)

  log_if-Keeps : (flags mask : ℕ) (m : String) → Keeps P (log_if_set hw flags mask m)
  unfolding log_if_set
  log_if-Keeps flags mask m =
      Keeps-when P (is_set flags mask) (rp2040_log hw m []) (log-Keeps P calm hw m [])

  imax-Keeps : (flags : ℕ) → Keeps P (clear_imax_if_set hw flags)
  unfolding clear_imax_if_set
  imax-Keeps flags =
      Keeps-when P (is_set flags imax_mask) _
        (search (Keeps->>=, Keeps->>, Keeps-pure, log-Keeps P calm hw, control-Keeps))

  report-Keeps : (flags safety : ℕ) → Keeps P (report_interrupt hw flags safety)
  unfolding report_interrupt
  report-Keeps flags safety = search (skip_log, imax, last) depth 20
    where
      skip_log :
          (bits mask : ℕ) (m : String) (k : M (Unit {0}))
          → Keeps P k
          → Keeps P (log_if_set hw bits mask m >> k)
      skip_log bits mask m k h = Keeps->> P _ k (log_if-Keeps bits mask m) h

      imax : (k : M (Unit {0})) → Keeps P k → Keeps P (clear_imax_if_set hw flags >> k)
      imax k h = Keeps->> P _ k (imax-Keeps flags) h

      last : (b : Bool) (m : String) → Keeps P (when b (rp2040_log hw m []))
      last b m = Keeps-when P b (rp2040_log hw m []) (log-Keeps P calm hw m [])

  pub parse-Keeps : Keeps P (bq27742_g1_parse_interrupt_vals hw)
  unfolding bq27742_g1_parse_interrupt_vals
  parse-Keeps =
      search
        (
          Keeps->>=,
          Keeps->>,
          Keeps-gets,
          Keeps-pure,
          bytes-Keeps,
          get-Keeps P calm hw,
          log-Keeps P calm hw,
          report-Keeps,
          rearm_if_high-Keeps,
        )
        depth 40

  -- The handler starts the parse, or turns the pin back.
  module _ (queue-Keeps : Keeps P (bq27742_g1_queue_parse_interrupt hw)) where
    edges-Keeps :
        (pin event_mask : ℕ)
        → Keeps P (
            when
              (is_set event_mask 4)
              (call (Event.gpio_acknowledge_irq pin 4) >> bq27742_g1_queue_parse_interrupt hw)
            >> when
                (is_set event_mask 8)
                (call (Event.gpio_acknowledge_irq pin 8) >> rearm_if_high hw))
    edges-Keeps pin event_mask =
        Keeps->> P _ _
          (Keeps-when P (is_set event_mask 4) _
            (Keeps->> P _ _ (ack-Keeps P calm pin 4) queue-Keeps))
          (Keeps-when P (is_set event_mask 8) _
            (Keeps->> P _ _ (ack-Keeps P calm pin 8) rearm_if_high-Keeps))

    pub on_interrupt-Keeps :
        (gpio event_mask : ℕ) → Keeps P (bq27742_g1_on_interrupt hw gpio event_mask)
    unfolding bq27742_g1_on_interrupt
    on_interrupt-Keeps gpio event_mask = keeps (λ w h.
        Post-if_at P (not (gpio == w.gauge.gpio_interrupt)) (pure tt) _ w h
          ((edges-Keeps w.gauge.gpio_interrupt event_mask).at w h))
