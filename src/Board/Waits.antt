-- ===== src/Board/Waits.antt =====
-- Which of the waiting loops end: those that assert do, whatever happens meanwhile, those that only log
-- do not while their flag stays down.
use smartphone_robot_firmwar.Base.{
  ℕ, zero, suc, ◌+◌, ◌≤◌, ltb, ltb→le, Bool, true, false, [], Option, none, some, String, u32,
  Bool-cases, inl, inr, ◌≡◌, refl, arith,
}
use smartphone_robot_firmwar.Board.Sdk.{Event}
use smartphone_robot_firmwar.Board.{
  Hardware, World, Outcome, ok, assert_failed, M, pure, ◌>>=◌, ◌>>◌, rp2040_log,
}
use smartphone_robot_firmwar.Board.Gives.{Result}
use smartphone_robot_firmwar.Board.Bus.{after, told}
use smartphone_robot_firmwar.Usb.State.{UsbState}
use smartphone_robot_firmwar.Board.Wait.{wait_logging, wait_asserting, resume}

-- Whether a run has ended, with a result or by an assertion.
unfoldable pub ends : {A : Type 0} → Outcome (Option A) → Bool
ends (ok none w) = false
ends (ok (some a) w) = true
ends (assert_failed w) = true

-- A run that is still in its loop when the fuel is spent: it has neither returned nor asserted.
abbrev pub Endless : {A : Type 0} → Outcome (Option A) → Type 0
Endless o = Result (λ r. r ≡ none) o

pub record Ends {A : Type 0} (m : M (Option A)) : Type 0 where
  pub at : (w : World) → ends (m w) ≡ true

-- A first part that has no loop.
ends-bind :
    {A B : Type 0} (o : Outcome A) (f : A → M (Option B))
    → ((a : A) → Ends (f a))
    → ends
        (elim o as (λ k. Outcome (Option B)) [ ok a w ↦ f a w | assert_failed w ↦ assert_failed w ])
      ≡ true
unfolding ends
ends-bind (ok a w) f h = (h a).at w
ends-bind (assert_failed w) f h = refl

pub Ends->>= :
    {A B : Type 0} (m : M A) (f : A → M (Option B)) → ((a : A) → Ends (f a)) → Ends (m >>= f)
Ends->>= m f h = record { at = λ w. ends-bind (m w) f h }

pub Ends->> : {B : Type 0} (m : M (Unit {0})) (k : M (Option B)) → Ends k → Ends (m >> k)
Ends->> m k h = Ends->>= m (λ _. k) (λ _. h)

-- A loop that has ended, and what follows it.
ends-loop :
    {A B : Type 0} (o : Outcome (Option A)) (f : Option A → M (Option B))
    → ends o ≡ true
    → ((a : A) → Ends (f (some a)))
    → ends
        (elim o as (λ k. Outcome (Option B)) [ ok a w ↦ f a w | assert_failed w ↦ assert_failed w ])
      ≡ true
unfolding ends
ends-loop (ok none w) f e h = ground arith
ends-loop (ok (some a) w) f e h = (h a).at w
ends-loop (assert_failed w) f e h = refl

pub Ends-loop :
    {A B : Type 0} (m : M (Option A)) (f : Option A → M (Option B))
    → Ends m
    → ((a : A) → Ends (f (some a)))
    → Ends (m >>= f)
Ends-loop m f e h = record { at = λ w. ends-loop (m w) f (e.at w) h }

pub Ends-resume : {A : Type 0} (a : A) (k : A → M (Unit {0})) → Ends (resume (some a) k)
unfolding resume ends
Ends-resume a k = Ends->> (k a) (pure (some tt)) (record { at = λ w. refl })

module _ (hw : Hardware) (others : World → World) where
  ends-wait :
      (flag : World → Bool) (message : String) (fuel i : ℕ) (w : World)
      → 1001 ≤ fuel + i
      → 1 ≤ fuel
      → ends (wait_asserting hw others flag message fuel i w) ≡ true
  unfolding ends wait_asserting rp2040_log
  ends-wait flag message zero i w h k = ground arith
  ends-wait flag message (suc fuel) i w h k = elim (Bool-cases (flag w)) [
    | inl e ↦ rw e refl
    | inr e ↦ rw e (elim (Bool-cases (ltb 1000 (suc i))) [
      | inl late ↦ rw late refl
      | inr early ↦
          let le : suc i ≤ 1000 = ltb→le 1000 (suc i) early in
          rw early (
            ends-wait flag message fuel (suc i) (others (after w (Event.sleep_ms 10))) (omega arith)
              (omega arith))
    ])
  ]

  pub Ends-wait :
      (flag : World → Bool) (message : String) (i : ℕ)
      → Ends (wait_asserting hw others flag message 1001 i)
  Ends-wait flag message i = record {
    at = λ w. ends-wait flag message 1001 i w (omega arith) (omega arith);
  }

  -- The loop that only logs goes on while nothing raises its flag.
  module _ (flag : UsbState → Bool)
      (silent : (w : World) → flag w.usb ≡ false → flag (others w).usb ≡ false) (ms limit : ℕ)
      (message : String) where
    pub wait_logging-stays :
        (fuel i : ℕ) (w : World)
        → flag w.usb ≡ false
        → Endless (wait_logging hw others (λ w. flag w.usb) ms limit message fuel i w)
    unfolding Result wait_logging rp2040_log
    wait_logging-stays zero i w e = refl
    wait_logging-stays (suc fuel) i w e = rw e (elim (Bool-cases (ltb limit (u32 (suc i)))) [
      | inl late ↦
          let w1 = others (after w (Event.sleep_ms ms)) in
          rw late (
            wait_logging-stays fuel (u32 (suc i)) (told hw message [] w1)
              (silent (after w (Event.sleep_ms ms)) e))
      | inr early ↦ rw early (
          wait_logging-stays fuel (u32 (suc i)) (others (after w (Event.sleep_ms ms)))
            (silent (after w (Event.sleep_ms ms)) e))
    ])
