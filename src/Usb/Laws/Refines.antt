-- ===== src/Usb/Laws/Refines.antt =====
-- src/max77958.c: the opcode queue refines a pair of lists, the commands that wait and those that core 1
-- has been given.
use smartphone_robot_firmwar.Base.{
  ℕ, ltb, true, List, [], ◌∷◌, ◌++◌, length, Option, none, some, if◌then◌else◌, ◌≡◌, refl, ◌∙◌, ap,
  sym, Bool-cases, inl, inr,
}
use smartphone_robot_firmwar.Board.Sdk.{Event, EntryFunc, QueueEntry}
use smartphone_robot_firmwar.Board.{
  Hardware, World, Outcome, ok, assert_failed, M, pure, ◌>>=◌, ◌>>◌,
}
use smartphone_robot_firmwar.Usb.Opcode.{opcode_queue_add, opcode_queue_pop}
use smartphone_robot_firmwar.Usb.Laws.Queue.{
  contents, given, List-cases, OpcodeFifo, pop-empty, pop-full, add_lem, handed_over,
}

-- The abstract state, oldest command first in both lists.
pub record Commands : Type 0 where
  pub waiting : List QueueEntry
  pub started : List QueueEntry

pub data Operation : Type 0 where
  add : EntryFunc → ℕ → Operation
  pop : Operation

-- `none` is the assertion that stops the firmware when 16 commands wait.
unfoldable pub start_first : List QueueEntry → List QueueEntry → Commands
start_first [] started = record { waiting = []; started = started }
start_first (entry ∷ rest) started = record { waiting = rest; started = started ++ entry ∷ [] }

unfoldable pub operate : Operation → Commands → Option Commands
operate (add func arg) s =
    if ltb (length s.waiting) 16
    then some (record s { waiting = s.waiting ++ record { func = func; arg = arg } ∷ [] })
    else none
operate pop s = some (start_first s.waiting s.started)

unfoldable pub operate_all : List Operation → Commands → Option Commands
operate_all [] s = some s
operate_all (o ∷ os) s = elim (operate o s) [ none ↦ none | some s' ↦ operate_all os s' ]

-- The view of the world, and of an outcome.
abbrev pub view : Hardware → World → Commands
view hw w = record { waiting = contents w.trace; started = given hw w.trace }

abbrev pub view_of : {A : Type 0} → Hardware → Outcome A → Option Commands
view_of hw (ok a w) = some (view hw w)
view_of hw (assert_failed w) = none

module _ (hw : Hardware) where
  unfoldable pub run_operation : Operation → M (Unit {0})
  run_operation (add func arg) = opcode_queue_add hw func arg
  run_operation pop = opcode_queue_pop hw >>= λ started. pure tt

  unfoldable pub run_operations : List Operation → M (Unit {0})
  run_operations [] = pure tt
  run_operations (o ∷ os) = run_operation o >> run_operations os

-- An outcome without its result.
abbrev drop_result : {A : Type 0} → Outcome A → Outcome (Unit {0})
drop_result o = elim o [ ok a w ↦ ok tt w | assert_failed w ↦ assert_failed w ]

view_of_drop :
    {A : Type 0} (hw : Hardware) (o : Outcome A) → view_of hw (drop_result o) ≡ view_of hw o
view_of_drop hw (ok a w) = refl
view_of_drop hw (assert_failed w) = refl

module _ (hw : Hardware) (fifo : OpcodeFifo hw)
    (accepts : (h : List Event) → hw.queue_accepts h ≡ true) where
  add-refines :
      (func : EntryFunc) (arg : ℕ) (w : World)
      → view_of hw (run_operation hw (add func arg) w) ≡ operate (add func arg) (view hw w)
  unfolding contents given operate run_operation
  add-refines func arg w =
      rw (add_lem hw fifo func arg w) (elim (Bool-cases (ltb (length (contents w.trace)) 16)) [
        | inl e ↦ rw e (rw e refl)
        | inr e ↦ rw e refl
      ])

  pop-refines : (w : World) → view_of hw (run_operation hw pop w) ≡ operate pop (view hw w)
  unfolding contents given operate run_operation start_first
  pop-refines w = view_of_drop hw (opcode_queue_pop hw w) ∙ elim (List-cases (contents w.trace)) [
    | inl e ↦ ap (λ o. view_of hw o) (pop-empty hw fifo w e) ∙ rw e refl
    | inr (entry, (rest, e)) ↦
        ap (λ o. view_of hw o) (pop-full hw fifo w entry rest e)
        ∙ rw (accepts ((handed_over hw entry w).trace), e)
            (rw (accepts ((handed_over hw entry w).trace)) refl)
  ]

  -- One more operation.
  bind-refines :
      (o : Outcome (Unit {0})) (s : Option Commands) (os : List Operation)
      → view_of hw o ≡ s
      → ((w : World) → view_of hw (run_operations hw os w) ≡ operate_all os (view hw w))
      → view_of hw (elim o [ ok a w ↦ run_operations hw os w | assert_failed w ↦ assert_failed w ])
        ≡ elim s [ none ↦ none | some s' ↦ operate_all os s' ]
  bind-refines (ok a w) s os e h = h w ∙ rw (sym e) refl
  bind-refines (assert_failed w) s os e h = rw (sym e) refl

  -- Where the SDK's opcode queue is first in, first out with room for 16 entries, and the queue of core 1
  -- takes every entry: any sequence of opcode_queue_add and opcode_queue_pop does to the commands that
  -- wait and to those that core 1 has been given what the same operations do to two lists, an add to the
  -- end of the first, a pop from its head to the end of the second; and the firmware stops exactly when
  -- an add finds 16 commands waiting.
  pub run_operations-refines :
      (os : List Operation) (w : World)
      → view_of hw (run_operations hw os w) ≡ operate_all os (view hw w)
  unfolding run_operations operate_all
  run_operations-refines [] w = refl
  run_operations-refines (add func arg ∷ os) w =
      bind-refines _ _ os (add-refines func arg w) (run_operations-refines os)
  run_operations-refines (pop ∷ os) w =
      bind-refines _ _ os (pop-refines w) (run_operations-refines os)
