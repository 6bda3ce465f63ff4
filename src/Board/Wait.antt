-- ===== src/Board/Wait.antt =====
-- The loops of the self tests and of max77958_shutdown that sleep until a flag is set: in src/max77958.c
-- they only log that they have waited too long, in src/max77976.c, src/ncp3901.c and src/drv8830.c they
-- stop the firmware. `others` is what the interrupts and core 1 make of the world during one sleep, and
-- `none` means that the fuel ran out before the loop has ended.
use smartphone_robot_firmwar.Base.{
  ℕ, zero, suc, ltb, u32, Bool, [], Option, none, some, String, if◌then◌else◌,
}
use smartphone_robot_firmwar.Board.Sdk.{Event}
use smartphone_robot_firmwar.Board.{
  Hardware, World, M, pure, ◌>>=◌, ◌>>◌, assert_false, modify, gets, call, when, rp2040_log,
}

-- One round of the loop: the sleep, and what happens meanwhile.
abbrev pub nap : (World → World) → ℕ → M (Unit {0})
nap others ms = do call (Event.sleep_ms ms); modify others

module _ (hw : Hardware) (others : World → World) where
  -- `while (!flag){ sleep_ms(ms); i++; if (i > limit){ rp2040_log(message); } }`, with a counter of 32
  -- bits that wraps: it is a `uint32_t` in test_max77958_interrupt, and an `int`, whose overflow after
  -- 2^31 rounds C leaves undefined, in the other loops.
  unfoldable pub wait_logging : (World → Bool) → ℕ → ℕ → String → ℕ → ℕ → M (Option ℕ)
  wait_logging flag ms limit message zero i = pure none
  wait_logging flag ms limit message (suc fuel) i = do
    done ← gets flag
    if done then pure (some i) else (do
      nap others ms
      when (ltb limit (u32 (suc i))) (rp2040_log hw message [])
      wait_logging flag ms limit message fuel (u32 (suc i)))

  -- `while (!flag){ sleep_ms(10); i++; if (i > 1000){ rp2040_log(message); assert(false); } }`
  unfoldable pub wait_asserting : (World → Bool) → String → ℕ → ℕ → M (Option ℕ)
  wait_asserting flag message zero i = pure none
  wait_asserting flag message (suc fuel) i = do
    done ← gets flag
    if done then pure (some i) else (do
      nap others 10
      when (ltb 1000 (suc i)) (do rp2040_log hw message []; assert_false)
      wait_asserting flag message fuel (suc i))

-- What follows a loop, if it has ended.
unfoldable pub resume : {A : Type 0} → Option A → (A → M (Unit {0})) → M (Option (Unit {0}))
resume none k = pure none
resume (some i) k = do k i; pure (some tt)
