-- ===== src/Usb/Laws/Queue.antt =====
-- src/max77958.c: `opcode_queue` as a queue, and the two operations on it as moves of commands from
-- there to the queue of core 1.
use smartphone_robot_firmwar.Base.{
  ℕ, ltb, true, false, List, [], ◌∷◌, ◌++◌, length, drop, Option, none, some, if◌then◌else◌, ◌≡◌,
  refl, ◌∙◌, inl, inr, ◌⊎◌, arith,
}
use smartphone_robot_firmwar.Board.Sdk.{Event, Arg, EntryFunc, QueueEntry}
use smartphone_robot_firmwar.Board.{Hardware, World, ok, assert_failed, ◌>>=◌, rp2040_log}
use smartphone_robot_firmwar.Board.Bus.{after, told}
use smartphone_robot_firmwar.Usb.Opcode.{opcode_queue_add, start_opcode, opcode_queue_pop}

-- What the calls so far, newest first, have left in the queue of 16 entries.
unfoldable pub contents : List Event → List QueueEntry
contents [] = []
contents (Event.opcode_queue_init ∷ trace) = []
contents (Event.opcode_queue_try_add entry ∷ trace) =
    let before = contents trace in if ltb (length before) 16 then before ++ entry ∷ [] else before
contents (Event.opcode_queue_try_remove ∷ trace) = drop 1 (contents trace)
contents (_ ∷ trace) = contents trace

-- What the queue of core 1 has taken in the calls so far, oldest first.
unfoldable pub given : Hardware → List Event → List QueueEntry
given hw [] = []
given hw (Event.queue_try_add entry ∷ trace) =
    let before = given hw trace in
    if hw.queue_accepts (Event.queue_try_add entry ∷ trace) then before ++ entry ∷ [] else before
given hw (_ ∷ trace) = given hw trace

unfoldable pub first : List QueueEntry → Option QueueEntry
first [] = none
first (entry ∷ entries) = some entry

-- The SDK's queue is first in, first out, and takes an entry while there is room.
pub record OpcodeFifo (hw : Hardware) : Type 0 where
  pub accepts :
      (entry : QueueEntry) (t : List Event)
      → hw.opcode_accepts (Event.opcode_queue_try_add entry ∷ t) ≡ ltb (length (contents t)) 16
  pub removes :
      (t : List Event) → hw.opcode_removed (Event.opcode_queue_try_remove ∷ t) ≡ first (contents t)

-- The world after an entry has been taken out, and after it has been put into the call queue.
abbrev pub taken : Hardware → World → World
taken hw w =
    let w1 = after (after w Event.opcode_queue_try_remove) Event.opcode_queue_get_level in
    told hw "Removed entry from opcode_queue. %d entries remaining\n"
      (Arg.num (hw.opcode_level w1.trace) ∷ []) w1

abbrev pub handed_over : Hardware → QueueEntry → World → World
handed_over hw entry w = after (taken hw w) (Event.queue_try_add entry)

-- The world after an entry has been offered to the opcode queue.
abbrev pub queued : EntryFunc → ℕ → World → World
queued func arg w =
    after (record w { usb = record (w.usb) { opcodes_finished = false } })
      (Event.opcode_queue_try_add (record { func = func; arg = arg }))

module _ (hw : Hardware) (fifo : OpcodeFifo hw) where
  pub pop-empty :
      (w : World)
      → contents w.trace ≡ []
      → opcode_queue_pop hw w
        ≡ ok false (
            told hw "opcode_queue_pop: opcode_queue empty\n" []
              (after w Event.opcode_queue_try_remove))
  unfolding opcode_queue_pop start_opcode rp2040_log first
  pop-empty w e = simp (opcode_queue_pop, ◌>>=◌, fifo.removes, e, start_opcode)

  pub pop-full :
      (w : World) (entry : QueueEntry) (rest : List QueueEntry)
      → contents w.trace ≡ entry ∷ rest
      → opcode_queue_pop hw w ≡ (
          let w1 = handed_over hw entry w in
          if hw.queue_accepts w1.trace
          then ok true (told hw "added opcode entry to call_queue\n" [] w1)
          else ok false (told hw "ERROR: opcode_queue_pop: call_queue full\n" [] w1))
  unfolding opcode_queue_pop start_opcode rp2040_log first
  pop-full w entry rest e =
      simp (opcode_queue_pop, ◌>>=◌, fifo.removes, e, start_opcode) (ground arith)

  pub pop-accepted :
      (w : World) (entry : QueueEntry) (rest : List QueueEntry)
      → contents w.trace ≡ entry ∷ rest
      → hw.queue_accepts ((handed_over hw entry w).trace) ≡ true
      → opcode_queue_pop hw w
        ≡ ok true (told hw "added opcode entry to call_queue\n" [] (handed_over hw entry w))
  pop-accepted w entry rest e a = pop-full w entry rest e ∙ rw a refl

  pub pop-rejected :
      (w : World) (entry : QueueEntry) (rest : List QueueEntry)
      → contents w.trace ≡ entry ∷ rest
      → hw.queue_accepts ((handed_over hw entry w).trace) ≡ false
      → opcode_queue_pop hw w
        ≡ ok false
            (told hw "ERROR: opcode_queue_pop: call_queue full\n" [] (handed_over hw entry w))
  pop-rejected w entry rest e a = pop-full w entry rest e ∙ rw a refl

  pub add_lem :
      (func : EntryFunc) (arg : ℕ) (w : World)
      → opcode_queue_add hw func arg w ≡ (
          let w1 = queued func arg w in
          let w2 = after w1 Event.opcode_queue_get_level in
          if ltb (length (contents w.trace)) 16
          then ok tt (
              told hw "Added to opcode_queue. %d entries remaining\n"
                (Arg.num (hw.opcode_level w2.trace) ∷ [])
                w2)
          else assert_failed (told hw "ERROR: opcode_queue is full" [] w1))
  unfolding opcode_queue_add rp2040_log
  add_lem func arg w = simp (opcode_queue_add, ◌>>=◌, fifo.accepts) (ground arith)

pub List-cases :
    {A : Type 0} (xs : List A) → (xs ≡ []) ⊎ ((x : A) × ((rest : List A) × (xs ≡ x ∷ rest)))
List-cases [] = inl refl
List-cases (x ∷ rest) = inr (x, (rest, refl))
