-- ===== src/Usb/Laws/Waiting.antt =====
-- src/max77958.c: the loops that wait for `opcodes_finished`.
use smartphone_robot_firmwar.Base.{
  ℕ, ltb, length, Bool, true, inl, inr, if◌then◌else◌, false, List, Option, none, some, String, ◌≡◌,
  refl,
}
use smartphone_robot_firmwar.Board.Sdk.{Event, Arg, EntryFunc, QueueEntry}
use smartphone_robot_firmwar.Board.{
  Hardware, World, Outcome, ok, assert_failed, M, ask, rp2040_log, assert_false,
}
use smartphone_robot_firmwar.Board.Keeps.{
  Post, Keeps, keeps, Keeps-pure, Keeps->>=, Keeps->>, Keeps-when, Keeps-if, Stable, Keeps-ask,
  Keeps-rp2040_log,
}
use smartphone_robot_firmwar.Board.Wait.{resume}
use smartphone_robot_firmwar.Board.Waits.{Endless, wait_logging-stays}
use smartphone_robot_firmwar.Board.Gives.{Result, Anything, Result-bind}
use smartphone_robot_firmwar.Usb.Transfer.{update_usb}
use smartphone_robot_firmwar.Usb.Opcode.{opcode_queue_add, start_opcode, opcode_queue_pop}
use smartphone_robot_firmwar.Usb.Laws.Queue.{
  contents, List-cases, OpcodeFifo, pop-empty, pop-full, add_lem,
}
use smartphone_robot_firmwar.Usb.SelfTest.{run_opcode, max77958_shutdown}

-- A command is to be answered.
abbrev pub Unfinished : World → Type 0
Unfinished w = w.usb.opcodes_finished ≡ false

abbrev AnyEvent : Event → Type 0
AnyEvent e = Unit {0}

stable : Stable Unfinished AnyEvent
stable = record { quiet = λ w e q h. h; logs = λ hw w m args h. h; enter = tt; exit = tt; nap = tt }

-- What follows a loop that does not end.
pub Endless-resume :
    {A : Type 0} (o : Outcome (Option A)) (k : A → M (Unit {0}))
    → Endless o
    → Endless (elim o as (λ k. Outcome (Option (Unit {0}))) [
      | ok rounds w ↦ resume rounds k w
      | assert_failed w ↦ assert_failed w
    ])
unfolding Result resume
Endless-resume (ok r w) k h = rw h refl
Endless-resume (assert_failed w) k h = elim h [ ]

-- The opcode queue has room.
abbrev pub HasRoom : World → Type 0
HasRoom w = ltb (length (contents w.trace)) 16 ≡ true

module _ (hw : Hardware) where
  ask-Keeps : {A : Type 0} (answer : List Event → A) (e : Event) → Keeps Unfinished (ask answer e)
  ask-Keeps answer e = Keeps-ask Unfinished AnyEvent stable answer e tt

  log-Keeps : (m : String) (args : List Arg) → Keeps Unfinished (rp2040_log hw m args)
  log-Keeps m args = Keeps-rp2040_log Unfinished AnyEvent stable hw m args

  assert-Keeps : {A : Type 0} → Keeps Unfinished (assert_false {A = A})
  assert-Keeps = keeps (λ w h. h)

  clear-Keeps : Keeps Unfinished (update_usb (λ u. record u { opcodes_finished = false }))
  clear-Keeps = keeps (λ w h. refl)

  add-Keeps : (func : EntryFunc) (arg : ℕ) → Keeps Unfinished (opcode_queue_add hw func arg)
  unfolding opcode_queue_add
  add-Keeps func arg =
      search (Keeps->>=, Keeps->>, Keeps-when, clear-Keeps, ask-Keeps, log-Keeps, assert-Keeps)
        depth 12

  -- It leaves a command to be answered from every world, since it clears the flag first.
  add-Unfinished :
      (func : EntryFunc) (arg : ℕ) (w : World) → Post Unfinished (opcode_queue_add hw func arg w)
  unfolding opcode_queue_add
  add-Unfinished func arg w =
      (add-Keeps func arg).at (record w { usb = record (w.usb) { opcodes_finished = false } }) refl

  start-Keeps : (removed : Option QueueEntry) → Keeps Unfinished (start_opcode hw removed)
  unfolding start_opcode
  start-Keeps none = search (Keeps->>, Keeps-pure, log-Keeps)
  start-Keeps (some entry) =
      search (Keeps->>=, Keeps->>, Keeps-if, Keeps-pure, ask-Keeps, log-Keeps) depth 12

  pop-Keeps : Keeps Unfinished (opcode_queue_pop hw)
  unfolding opcode_queue_pop
  pop-Keeps = Keeps->>= Unfinished _ _ (ask-Keeps hw.opcode_removed _) start-Keeps

  module _ (fifo : OpcodeFifo hw) where
    add-Result :
        (func : EntryFunc) (arg : ℕ) (w : World)
        → HasRoom w
        → Result Anything (opcode_queue_add hw func arg w)
    unfolding Result
    add-Result func arg w h = rw (add_lem hw fifo func arg w, h) tt

    pushed-Result :
        (b : Bool) (o o' : Outcome Bool)
        → Result Anything o
        → Result Anything o'
        → Result Anything (if b then o else o')
    pushed-Result true o o' h h' = h
    pushed-Result false o o' h h' = h'

    pop-Result : (w : World) → Result Anything (opcode_queue_pop hw w)
    unfolding Result
    pop-Result w = elim (List-cases (contents w.trace)) [
      | inl e ↦ rw (pop-empty hw fifo w e) tt
      | inr (entry, (rest, e)) ↦
          rw (pop-full hw fifo w entry rest e) (pushed-Result (hw.queue_accepts _) _ _ tt tt)
    ]

    module _ (others : World → World) (silent : (w : World) → Unfinished w → Unfinished (others w))
        (fuel : ℕ) where
      pub run_opcode-waits :
          (func : EntryFunc) (arg : ℕ) (message : String) (w : World)
          → HasRoom w
          → Endless (run_opcode hw others fuel func arg message w)
      unfolding run_opcode
      run_opcode-waits func arg message w room =
          Result-bind Unfinished Anything _ (opcode_queue_add hw func arg w) _
            (add-Unfinished func arg w) (add-Result func arg w room)
            (λ a w1 h u.
              Result-bind Unfinished Anything _ (opcode_queue_pop hw w1) _ (pop-Keeps.at w1 h)
                (pop-Result w1)
                (λ popped w2 h2 u2.
                  wait_logging-stays hw others (λ u. u.opcodes_finished) silent 100 10 message fuel
                    0 w2 h2))

      -- While neither the interrupts nor core 1 report that the commands are done, max77958_shutdown
      -- stays in its loop, however many rounds that is given and whatever else the board answers.
      pub max77958_shutdown-waits :
          (w : World) → HasRoom w → Endless (max77958_shutdown hw others fuel w)
      unfolding max77958_shutdown
      max77958_shutdown-waits w room =
          Endless-resume (run_opcode hw others fuel EntryFunc.gpio_set _ _ w) _
            (run_opcode-waits EntryFunc.gpio_set _ _ w room)
