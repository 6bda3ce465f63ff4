-- ===== src/Board/Keeps.antt =====
-- Rules for predicates that a driver keeps, on every answer of the board, also where it asserts.
use smartphone_robot_firmwar.Base.{
  ℕ, ℤ, is_nonneg, Bool, true, false, List, ◌∷◌, String, if◌then◌else◌, [], map, u8,
}
use smartphone_robot_firmwar.Board.Sdk.{Event, I2c, Arg}
use smartphone_robot_firmwar.Board.{
  Hardware, World, Outcome, ok, assert_failed, M, pure, ◌>>=◌, ◌>>◌, call, ask, gets, when,
  rp2040_log, logged,
}
use smartphone_robot_firmwar.Board.Bus.{after}
use smartphone_robot_firmwar.Board.I2cRetry.{i2c_write_error_handling, i2c_read_error_handling}
use smartphone_robot_firmwar.Board.Retries.{
  i2c_write_error_handling_lem, i2c_read_error_handling_lem, first_success,
}

-- The world that is left satisfies `P`.
abbrev pub Post {ℓ} : {A : Type ℓ} → (World → Type 0) → Outcome A → Type 0
Post P (ok a w) = P w
Post P (assert_failed w) = P w

pub record Keeps {A : Type 0} (P : World → Type 0) (m : M A) : Type 0 where
  pub at : (w : World) → P w → Post P (m w)

abbrev pub keeps :
    {A : Type 0} {P : World → Type 0} {m : M A} → ((w : World) → P w → Post P (m w)) → Keeps P m
keeps h = record { at = h }

module _ (P : World → Type 0) where
  pub Keeps-pure : {A : Type 0} (a : A) → Keeps P (pure a)
  Keeps-pure a = keeps (λ w h. h)

  Post-bind :
      {A B : Type 0} (o : Outcome A) (f : A → M B)
      → Post P o
      → ((a : A) → Keeps P (f a))
      → Post {A = B} P (elim o [ ok a w' ↦ f a w' | assert_failed w' ↦ assert_failed w' ])
  Post-bind (ok a w) f h k = (k a).at w h
  Post-bind (assert_failed w) f h k = h

  pub Keeps->>= :
      {A B : Type 0} (m : M A) (f : A → M B)
      → Keeps P m
      → ((a : A) → Keeps P (f a))
      → Keeps P (m >>= f)
  Keeps->>= m f hm hf = keeps (λ w h. Post-bind (m w) f (hm.at w h) hf)

  pub Keeps->> :
      {B : Type 0} (m : M (Unit {0})) (k : M B) → Keeps P m → Keeps P k → Keeps P (m >> k)
  Keeps->> m k hm hk = Keeps->>= m (λ _. k) hm (λ _. hk)

  -- A part of the world that is read first.
  pub Keeps-gets :
      {A B : Type 0} (f : World → A) (k : A → M B)
      → ((a : A) → Keeps P (k a))
      → Keeps P (gets f >>= k)
  Keeps-gets f k h = keeps (λ w p. (h (f w)).at w p)

  pub Keeps-when : (b : Bool) (m : M (Unit {0})) → Keeps P m → Keeps P (when b m)
  Keeps-when true m hm = hm
  Keeps-when false m hm = keeps (λ w h. h)

  -- A branch of one world only.
  pub Post-if_at :
      {A : Type 0} (b : Bool) (m n : M A) (w : World)
      → Post P (m w)
      → Post P (n w)
      → Post P ((if b then m else n) w)
  Post-if_at true m n w hm hn = hm
  Post-if_at false m n w hm hn = hn

  pub Keeps-if :
      {A : Type 0} (b : Bool) (m n : M A) → Keeps P m → Keeps P n → Keeps P (if b then m else n)
  Keeps-if true m n hm hn = hm
  Keeps-if false m n hm hn = hn

-- A predicate that log lines and the quiet calls of the SDK keep.
pub record Stable (P : World → Type 0) (Quiet : Event → Type 0) : Type 0 where
  pub quiet : (w : World) (e : Event) → Quiet e → P w → P (after w e)
  pub logs :
      (hw : Hardware) (w : World) (m : String) (args : List Arg) → P w → P (logged hw m args w)
  pub enter : Quiet Event.mutex_enter_blocking
  pub exit : Quiet Event.mutex_exit
  pub nap : Quiet (Event.sleep_ms 10)

module _ (P : World → Type 0) (Quiet : Event → Type 0) (s : Stable P Quiet) where
  pub Keeps-call : (e : Event) → Quiet e → Keeps P (call e)
  Keeps-call e q = keeps (λ w h. s.quiet w e q h)

  pub Keeps-ask :
      {A : Type 0} (answer : List Event → A) (e : Event) → Quiet e → Keeps P (ask answer e)
  Keeps-ask answer e q = keeps (λ w h. s.quiet w e q h)

  pub Keeps-rp2040_log :
      (hw : Hardware) (m : String) (args : List Arg) → Keeps P (rp2040_log hw m args)
  unfolding rp2040_log
  Keeps-rp2040_log hw m args = keeps (λ w h.
      s.quiet (logged hw m args (after w Event.mutex_enter_blocking)) Event.mutex_exit s.exit (
        s.logs hw (after w Event.mutex_enter_blocking) m args
          (s.quiet w Event.mutex_enter_blocking s.enter h)))

  Post-if :
      {A : Type 0} (b : Bool) (o o' : Outcome A)
      → Post P o
      → Post P o'
      → Post P (if b then o else o')
  Post-if true o o' h h' = h
  Post-if false o o' h h' = h'

  -- The retry loop only adds its own calls, its delays and one log line.
  Post-first_success :
      {A : Type 0} (hw : Hardware) (result : List Event → ℤ) (answer : List Event → A) (m : String)
      (e : Event) (w : World)
      → Quiet e
      → P w
      → Post P (first_success hw result answer m e w)
  unfolding rp2040_log
  Post-first_success hw result answer m e w q h = Post-if (is_nonneg (result w1.trace)) _ _ h1 (
      Post-if (is_nonneg (result w2.trace)) _ _ h2 (
        Post-if (is_nonneg (result w3.trace)) _ _ h3 (
          (Keeps-rp2040_log hw m (Arg.int (result w3.trace) ∷ Arg.int (result w3.trace) ∷ [])).at w3
            h3)))
    where
      w1 : World
      w1 = after w e

      w2 : World
      w2 = after (after w1 (Event.sleep_ms 10)) e

      w3 : World
      w3 = after (after w2 (Event.sleep_ms 10)) e

      h1 : P w1
      h1 = s.quiet w e q h

      h2 : P w2
      h2 = s.quiet (after w1 (Event.sleep_ms 10)) e q (s.quiet w1 (Event.sleep_ms 10) s.nap h1)

      h3 : P w3
      h3 = s.quiet (after w2 (Event.sleep_ms 10)) e q (s.quiet w2 (Event.sleep_ms 10) s.nap h2)

  pub Keeps-i2c_write :
      (hw : Hardware) (i2c : I2c) (addr : ℕ) (src : List ℕ) (nostop : Bool)
      → Quiet (Event.i2c_write_timeout_us i2c addr src nostop)
      → Keeps P (i2c_write_error_handling hw i2c addr src nostop)
  Keeps-i2c_write hw i2c addr src nostop q = keeps (λ w h.
      rw (i2c_write_error_handling_lem hw i2c addr src nostop w) (
        Post-first_success {A = Unit {0}} hw hw.write_result (λ h. tt)
          "ERROR: During i2c_write. Returned value of %i %i \n" _ w q h))

  pub Keeps-i2c_read :
      (hw : Hardware) (i2c : I2c) (addr len : ℕ) (nostop : Bool)
      → Quiet (Event.i2c_read_timeout_us i2c addr len nostop)
      → Keeps P (i2c_read_error_handling hw i2c addr len nostop)
  Keeps-i2c_read hw i2c addr len nostop q = keeps (λ w h.
      rw (i2c_read_error_handling_lem hw i2c addr len nostop w) (
        Post-first_success {A = List ℕ} hw hw.read_result (λ h. map (λ b. u8 b) (hw.read_bytes h))
          "ERROR: During i2c_read. Returned value of %i %i \n" _ w q h))
