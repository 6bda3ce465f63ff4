-- ===== src/Robot/Scan.antt =====
-- src/robot.c: the scan of an i2c bus.
use smartphone_robot_firmwar.Base.{
  ℕ, zero, suc, ◌+◌, ltb, ℤ, pos, negsuc, Bool, false, List, [], ◌∷◌, ◌++◌, length, length-append,
  ◌≤◌, inl, inr, Bool-cases, arith, if◌then◌else◌,
}
use smartphone_robot_firmwar.Board.Sdk.{Event, I2c}
use smartphone_robot_firmwar.Board.Gives.{Result}
use smartphone_robot_firmwar.Board.Bus.{after}
use smartphone_robot_firmwar.Board.{
  Hardware, World, Outcome, ok, assert_failed, M, pure, ◌>>=◌, ◌>>◌, call, ask,
}

abbrev pub is_positive : ℤ → Bool
is_positive (pos n) = ltb 0 n
is_positive (negsuc n) = false

module _ (hw : Hardware) (i2c : I2c) where
  -- The loop from `address` on, for `remaining` addresses, with what it has stored so far.
  unfoldable pub scan_from : ℕ → ℕ → List ℕ → M (List ℕ)
  scan_from zero address found_addresses = pure found_addresses
  scan_from (suc remaining) address found_addresses = do
    call (Event.sleep_ms 10)
    result ← ask hw.read_result (Event.i2c_read_blocking i2c address 1 false)
    scan_from remaining (suc address)
        (if is_positive result then found_addresses ++ address ∷ [] else found_addresses)

  -- The bytes that are written at the start of the 128 that are allocated.
  unfoldable pub i2c_scan : M (List ℕ)
  i2c_scan = do found_addresses ← scan_from 112 0x08 []; pure (found_addresses ++ 0 ∷ [])

module _ (hw : Hardware) (i2c : I2c) where
  -- The world after one address has been tried.
  abbrev scanned : ℕ → World → World
  scanned address w =
      after (after w (Event.sleep_ms 10)) (Event.i2c_read_blocking i2c address 1 false)

  scan_from-length :
      (remaining address : ℕ) (found : List ℕ) (w : World)
      → length found + remaining ≤ 112
      → Result (λ r. length r ≤ 112) (scan_from hw i2c remaining address found w)
  unfolding scan_from Result
  scan_from-length zero address found w h = omega arith
  scan_from-length (suc remaining) address found w h =
      elim (Bool-cases (is_positive (hw.read_result (scanned address w).trace))) [
        | inl e ↦ rw e (
            scan_from-length remaining (suc address) (found ++ address ∷ []) (scanned address w)
              (omega (arith, length-append found (address ∷ []))))
        | inr e ↦
            rw e (scan_from-length remaining (suc address) found (scanned address w) (omega arith))
      ]

  terminated :
      (o : Outcome (List ℕ))
      → Result (λ r. length r ≤ 112) o
      → Result
          (λ r. length r ≤ 113)
          (elim o as (λ k. Outcome (List ℕ)) [
            | ok found w ↦ ok (found ++ 0 ∷ []) w
            | assert_failed w ↦ assert_failed w
          ])
  unfolding Result
  terminated (ok found w) h = omega (arith, length-append found (0 ∷ []))
  terminated (assert_failed w) h = h

  -- A scan of a bus returns, on every answer of the board, and writes at most 113 bytes, the terminating
  -- zero included, into the 128 that it has allocated.
  pub i2c_scan-length : (w : World) → Result (λ r. length r ≤ 113) (i2c_scan hw i2c w)
  unfolding i2c_scan Result
  i2c_scan-length w =
      terminated (scan_from hw i2c 112 0x08 [] w) (scan_from-length 112 0x08 [] w (omega arith))
