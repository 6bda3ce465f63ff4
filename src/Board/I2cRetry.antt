-- ===== src/Board/I2cRetry.antt =====
-- src/robot.c, `i2c_write_error_handling` and `i2c_read_error_handling`: transactions that are tried
-- again. `Throw` goes to the `Catch` of the same function, which logs and asserts.
use smartphone_robot_firmwar.Base.{
  ℕ, zero, suc, ℤ, pos, is_nonneg, Bool, List, [], ◌∷◌, map, ◌==◌, not, if◌then◌else◌, u8,
}
use smartphone_robot_firmwar.Board.Sdk.{Event, I2c, Arg}
use smartphone_robot_firmwar.Board.{
  Hardware, M, pure, ◌>>=◌, ◌>>◌, assert_false, call, ask, when, rp2040_log,
}

abbrev pub max_retries : ℕ
max_retries = 3

abbrev pub retry_delay : ℕ
retry_delay = 10

-- The `do ... while (retries < MAX_RETRIES)` loop; `left` is MAX_RETRIES - retries.
with_retries : {A : Type 0} → M (ℤ × A) → (ℤ → M A) → ℕ → ℤ → M A
with_retries attempt catch zero result = catch result
with_retries attempt catch (suc left) _ = do
  (result, a) ← attempt
  if is_nonneg result then pure a else (do
    when (not (left == 0)) (call (Event.sleep_ms retry_delay))
    with_retries attempt catch left result)

module _ (hw : Hardware) where
  write_attempt : I2c → ℕ → List ℕ → Bool → M (ℤ × Unit {0})
  write_attempt i2c addr src nostop = do
    result ← ask hw.write_result (Event.i2c_write_timeout_us i2c addr src nostop)
    pure (result, tt)

  -- The bytes land in a `uint8_t` buffer.
  read_attempt : I2c → ℕ → ℕ → Bool → M (ℤ × List ℕ)
  read_attempt i2c addr len nostop =
      ask (λ h. (hw.read_result h, map (λ b. u8 b) (hw.read_bytes h)))
        (Event.i2c_read_timeout_us i2c addr len nostop)

  catch_write : ℤ → M (Unit {0})
  catch_write result = do
    rp2040_log hw "ERROR: During i2c_write. Returned value of %i %i \n"
        (Arg.int result ∷ Arg.int result ∷ [])
    assert_false

  catch_read : ℤ → M (List ℕ)
  catch_read result = do
    rp2040_log hw "ERROR: During i2c_read. Returned value of %i %i \n"
        (Arg.int result ∷ Arg.int result ∷ [])
    assert_false

  unfoldable pub i2c_write_error_handling : I2c → ℕ → List ℕ → Bool → M (Unit {0})
  unfolding with_retries write_attempt catch_write
  i2c_write_error_handling i2c addr src nostop =
      with_retries (write_attempt i2c addr src nostop) catch_write max_retries (pos 0)

  -- Returns what the call leaves in `dst`.
  unfoldable pub i2c_read_error_handling : I2c → ℕ → ℕ → Bool → M (List ℕ)
  unfolding with_retries read_attempt catch_read
  i2c_read_error_handling i2c addr len nostop =
      with_retries (read_attempt i2c addr len nostop) catch_read max_retries (pos 0)
