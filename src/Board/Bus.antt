-- ===== src/Board/Bus.antt =====
-- A bus on which every transaction succeeds.
use smartphone_robot_firmwar.Base.{
  ℕ, is_nonneg, Bool, true, List, ◌∷◌, map, String, u8, ◌≡◌, ◌∙◌, ap,
}
use smartphone_robot_firmwar.Board.Sdk.{Event, I2c, Arg}
use smartphone_robot_firmwar.Board.{Hardware, World, Outcome, ok, assert_failed, M, ◌>>=◌, logged}
use smartphone_robot_firmwar.Board.I2cRetry.{i2c_write_error_handling, i2c_read_error_handling}
use smartphone_robot_firmwar.Board.Retries.{
  i2c_write_error_handling_lem, i2c_read_error_handling_lem,
}

-- Every call answers the number of bytes, which is not negative.
pub record BusAcks (hw : Hardware) : Type 0 where
  pub writes : (h : List Event) → is_nonneg (hw.write_result h) ≡ true
  pub reads : (h : List Event) → is_nonneg (hw.read_result h) ≡ true

-- The world after one more call.
abbrev pub after : World → Event → World
after w e = record w { trace = e ∷ w.trace }

module _ (hw : Hardware) (acks : BusAcks hw) where
  pub write_acked :
      (i2c : I2c) (addr : ℕ) (src : List ℕ) (nostop : Bool) (w : World)
      → i2c_write_error_handling hw i2c addr src nostop w
        ≡ ok tt (after w (Event.i2c_write_timeout_us i2c addr src nostop))
  write_acked i2c addr src nostop w =
      i2c_write_error_handling_lem hw i2c addr src nostop w
      ∙ rw (acks.writes (Event.i2c_write_timeout_us i2c addr src nostop ∷ w.trace))

  pub read_acked :
      (i2c : I2c) (addr len : ℕ) (nostop : Bool) (w : World)
      → i2c_read_error_handling hw i2c addr len nostop w ≡ (
          let e = Event.i2c_read_timeout_us i2c addr len nostop in
          ok (map (λ b. u8 b) (hw.read_bytes (e ∷ w.trace))) (after w e))
  read_acked i2c addr len nostop w =
      i2c_read_error_handling_lem hw i2c addr len nostop w
      ∙ rw (acks.reads (Event.i2c_read_timeout_us i2c addr len nostop ∷ w.trace))

-- What follows a step that has returned.
pub bind_ok :
    {A B : Type 0} (m : M A) (f : A → M B) (w : World) (a : A) (w' : World)
    → m w ≡ ok a w'
    → (m >>= f) w ≡ f a w'
bind_ok {B} m f w a w' e =
    ap (λ o. elim o as (λ k. Outcome B) [ ok a w ↦ f a w | assert_failed w ↦ assert_failed w ]) e

-- The world after a log line.
abbrev pub told : Hardware → String → List Arg → World → World
told hw m args w = after (logged hw m args (after w Event.mutex_enter_blocking)) Event.mutex_exit
