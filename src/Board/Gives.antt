-- ===== src/Board/Gives.antt =====
-- Rules for a run that returns, from every world, a result that satisfies a predicate.
use smartphone_robot_firmwar.Base.{ℕ, List, [], String, Bool, true, false, if◌then◌else◌}
use smartphone_robot_firmwar.Board.Sdk.{Event, I2c, Arg}
use smartphone_robot_firmwar.Board.{
  Hardware, World, Outcome, ok, assert_failed, M, pure, ◌>>=◌, ◌>>◌, call, when, modify, gets,
  rp2040_log,
}
use smartphone_robot_firmwar.Board.I2cRetry.{i2c_write_error_handling, i2c_read_error_handling}
use smartphone_robot_firmwar.Board.Keeps.{Post}
use smartphone_robot_firmwar.Board.Bus.{BusAcks, write_acked, read_acked}

-- The run has returned, and its result satisfies `Q`.
unfoldable pub Result : {A : Type 0} → (A → Type 0) → Outcome A → Type 0
Result Q (ok a w) = Q a
Result Q (assert_failed w) = ⊥

pub record Gives {A : Type 0} (Q : A → Type 0) (m : M A) : Type 0 where
  pub at : (w : World) → Result Q (m w)

-- The run has returned.
abbrev pub Anything : {A : Type 0} → A → Type 0
Anything a = Unit {0}

pub Gives-pure : {A : Type 0} (Q : A → Type 0) (a : A) → Q a → Gives Q (pure a)
unfolding Result
Gives-pure Q a h = record { at = λ w. h }

pub Gives-any : {A : Type 0} (a : A) → Gives Anything (pure a)
Gives-any a = Gives-pure Anything a tt

pub bind-Result :
    {A B : Type 0} (P : A → Type 0) (Q : B → Type 0) (o : Outcome A) (f : A → M B)
    → Result P o
    → ((a : A) → P a → Gives Q (f a))
    → Result Q (elim o as (λ k. Outcome B) [ ok a w ↦ f a w | assert_failed w ↦ assert_failed w ])
unfolding Result
bind-Result P Q (ok a w) f h k = (k a h).at w
bind-Result P Q (assert_failed w) f h k = elim h [ ]

-- The second part depends on what the first returns.
pub Gives-bind :
    {A B : Type 0} (P : A → Type 0) (Q : B → Type 0) (m : M A) (f : A → M B)
    → Gives P m
    → ((a : A) → P a → Gives Q (f a))
    → Gives Q (m >>= f)
Gives-bind P Q m f hm hf = record { at = λ w. bind-Result P Q (m w) f (hm.at w) hf }

-- It does not.
pub Gives->>= :
    {A B : Type 0} (Q : B → Type 0) (m : M A) (f : A → M B)
    → Gives Anything m
    → ((a : A) → Gives Q (f a))
    → Gives Q (m >>= f)
Gives->>= Q m f hm h = Gives-bind Anything Q m f hm (λ a u. h a)

pub Gives->> :
    {B : Type 0} (Q : B → Type 0) (m : M (Unit {0})) (k : M B)
    → Gives Anything m
    → Gives Q k
    → Gives Q (m >> k)
Gives->> Q m k hm h = Gives->>= Q m (λ u. k) hm (λ u. h)

-- What the first part leaves in the world matters too.
pub Result-bind :
    {A B : Type 0} (K : World → Type 0) (P : A → Type 0) (Q : B → Type 0) (o : Outcome A)
    (f : A → M B)
    → Post K o
    → Result P o
    → ((a : A) (w : World) → K w → P a → Result Q (f a w))
    → Result Q (elim o as (λ k. Outcome B) [ ok a w ↦ f a w | assert_failed w ↦ assert_failed w ])
unfolding Result
Result-bind K P Q (ok a w) f k h all = all a w k h
Result-bind K P Q (assert_failed w) f k h all = elim h [ ]

pub modify-Gives : (f : World → World) → Gives Anything (modify f)
unfolding Result
modify-Gives f = record { at = λ w. tt }

pub gets-Gives : {A : Type 0} (f : World → A) → Gives Anything (gets f)
unfolding Result
gets-Gives f = record { at = λ w. tt }

pub Gives-if :
    {A : Type 0} (Q : A → Type 0) (b : Bool) (m n : M A)
    → Gives Q m
    → Gives Q n
    → Gives Q (if b then m else n)
Gives-if Q true m n hm hn = hm
Gives-if Q false m n hm hn = hn

module _ (hw : Hardware) where
  pub log-Gives : (m : String) (args : List Arg) → Gives Anything (rp2040_log hw m args)
  unfolding Result rp2040_log
  log-Gives m args = record { at = λ w. tt }

  pub when_log-Gives : (b : Bool) (m : String) → Gives Anything (when b (rp2040_log hw m []))
  when_log-Gives true m = log-Gives m []
  when_log-Gives false m = Gives-any tt

  pub call-Gives : (e : Event) → Gives Anything (call e)
  unfolding Result
  call-Gives e = record { at = λ w. tt }

  pub write-Gives :
      (acks : BusAcks hw) (i2c : I2c) (addr : ℕ) (src : List ℕ) (nostop : Bool)
      → Gives Anything (i2c_write_error_handling hw i2c addr src nostop)
  unfolding Result
  write-Gives acks i2c addr src nostop = record {
    at = λ w. rw (write_acked hw acks i2c addr src nostop w) tt;
  }

  pub read-Gives :
      (acks : BusAcks hw) (i2c : I2c) (addr len : ℕ) (nostop : Bool)
      → Gives Anything (i2c_read_error_handling hw i2c addr len nostop)
  unfolding Result
  read-Gives acks i2c addr len nostop = record {
    at = λ w. rw (read_acked hw acks i2c addr len nostop w) tt;
  }
