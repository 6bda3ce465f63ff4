-- ===== src/Usb/Laws/Response.antt =====
-- src/max77958.c: what the response to a command does to the opcode queue and to `opcodes_finished`.
use smartphone_robot_firmwar.Base.{
  ℕ, ltb, Bool, true, false, List, [], ◌∷◌, length, drop, not, if◌then◌else◌, ◌≡◌, refl, ◌∙◌,
  get_or, set, take, map, u8, Bool-cases, ◌⊎◌, ◌||◌, inl, inr, arith,
}
use smartphone_robot_firmwar.Board.Sdk.{Event, i2c0, Arg, EntryFunc, QueueEntry}
use smartphone_robot_firmwar.Board.{Hardware, World, Outcome, ok, M, ◌>>=◌, when, rp2040_log}
use smartphone_robot_firmwar.Board.Bus.{BusAcks, after, told, write_acked, read_acked, bind_ok}
use smartphone_robot_firmwar.Board.Keeps.{Post, Keeps, keeps, Keeps->>}
use smartphone_robot_firmwar.Board.Calm.{Calm, Mundane}
use smartphone_robot_firmwar.Usb.Header.{DriverHeader}
use smartphone_robot_firmwar.Usb.Transfer.{update_usb, zeros, fill, write_send_buf}
use smartphone_robot_firmwar.Usb.Opcode.{opcode_queue_add, opcode_queue_pop, opcode_read}
use smartphone_robot_firmwar.Usb.Irq.{on_opcode_cmd_response}
use smartphone_robot_firmwar.Usb.Laws.Buffers.{opcode_read-Keeps}
use smartphone_robot_firmwar.Usb.Laws.Queue.{
  contents, List-cases, OpcodeFifo, pop-empty, pop-full, pop-accepted, pop-rejected, add_lem,
  handed_over,
}

-- The queue of core 1 has refused an entry.
unfoldable pub refused : Hardware → List Event → Bool
refused hw [] = false
refused hw (Event.queue_try_add entry ∷ t) =
    not (hw.queue_accepts (Event.queue_try_add entry ∷ t)) || refused hw t
refused hw (_ ∷ t) = refused hw t

-- Either a command is still to be answered, or none waits, or the queue of core 1 has refused an entry.
abbrev pub EmptyUnlessRefused : Hardware → World → Type 0
EmptyUnlessRefused hw w =
    (w.usb.opcodes_finished ≡ false) ⊎ ((contents w.trace ≡ []) ⊎ (refused hw w.trace ≡ true))

pub contents-Mundane : (e : Event) (t : List Event) → Mundane e → contents (e ∷ t) ≡ contents t
unfolding contents
contents-Mundane Event.opcode_queue_init t m = ground arith
contents-Mundane (Event.opcode_queue_try_add entry) t m = ground arith
contents-Mundane Event.opcode_queue_try_remove t m = ground arith
contents-Mundane _ t m = refl

or_later : (b r : Bool) → r ≡ true → (b || r) ≡ true
or_later true r h = refl
or_later false r h = h

refused-later :
    (hw : Hardware) (e : Event) (t : List Event) → refused hw t ≡ true → refused hw (e ∷ t) ≡ true
unfolding refused
refused-later hw (Event.queue_try_add entry) t h = or_later _ _ h
refused-later hw _ t h = h

pub EmptyUnlessRefused-Calm : (hw : Hardware) → Calm (EmptyUnlessRefused hw)
EmptyUnlessRefused-Calm hw = record {
  quiet = λ w e m h. elim h [
    | inl f ↦ inl f
    | inr (inl c) ↦ inr (inl (contents-Mundane e w.trace m ∙ c))
    | inr (inr r) ↦ inr (inr (refused-later hw e w.trace r))
  ];
  logs = λ hw w m args h. h;
  motor = λ w s h. h;
  wireless = λ w s h. h;
  charger = λ w s h. h;
  usb = λ w s e h. elim h [ inl f ↦ inl (e ∙ f) | inr c ↦ inr c ];
  core1 = λ w b h. h;
}

-- The end of `on_opcode_cmd_response`.
abbrev finish_if : Bool → M (Unit {0})
finish_if started = when (not started) (update_usb (λ u. record u { opcodes_finished = true }))

module _ (hw : Hardware) (fifo : OpcodeFifo hw) where
  pub add-EmptyUnlessRefused :
      (func : EntryFunc) (arg : ℕ) → Keeps (EmptyUnlessRefused hw) (opcode_queue_add hw func arg)
  add-EmptyUnlessRefused func arg = keeps (λ w h.
      rw (add_lem hw fifo func arg w) (elim (Bool-cases (ltb (length (contents w.trace)) 16)) [
        | inl e ↦ rw e (inl refl)
        | inr e ↦ rw e (inl refl)
      ]))

  -- Both ends of `opcode_queue_pop`.
  Post-pushed :
      (b : Bool) (o o' : Outcome Bool)
      → Post (EmptyUnlessRefused hw) o
      → Post (EmptyUnlessRefused hw) o'
      → Post (EmptyUnlessRefused hw) (if b then o else o')
  Post-pushed true o o' h h' = h
  Post-pushed false o o' h h' = h'

  -- Taking an entry out keeps the invariant, and so does offering it to core 1.
  popped :
      (entry : QueueEntry) (w : World)
      → EmptyUnlessRefused hw w
      → (w.usb.opcodes_finished ≡ false)
        ⊎ ((drop 1 (contents w.trace) ≡ []) ⊎ (refused hw (handed_over hw entry w).trace ≡ true))
  unfolding refused
  popped entry w (inl f) = inl f
  popped entry w (inr (inl c)) = inr (inl (rw c refl))
  popped entry w (inr (inr r)) = inr (inr (or_later _ _ r))

  pub pop-EmptyUnlessRefused : Keeps (EmptyUnlessRefused hw) (opcode_queue_pop hw)
  unfolding contents refused
  pop-EmptyUnlessRefused = keeps (λ w h. elim (List-cases (contents w.trace)) [
    | inl e ↦ rw (pop-empty hw fifo w e) (inr (inl (rw e refl)))
    | inr (entry, (rest, e)) ↦ rw (pop-full hw fifo w entry rest e) (
        Post-pushed (hw.queue_accepts ((handed_over hw entry w).trace)) _ _ (popped entry w h)
          (popped entry w h))
  ])

  -- A refusal is remembered.
  refused_now :
      (entry : QueueEntry) (w : World)
      → hw.queue_accepts ((handed_over hw entry w).trace) ≡ false
      → refused hw (handed_over hw entry w).trace ≡ true
  unfolding refused
  refused_now entry w a = rw a refl

  finish-EmptyUnlessRefused : Keeps (EmptyUnlessRefused hw) (opcode_queue_pop hw >>= finish_if)
  unfolding contents refused
  finish-EmptyUnlessRefused = keeps (λ w h. elim (List-cases (contents w.trace)) [
    | inl e ↦
        rw (bind_ok (opcode_queue_pop hw) finish_if w false _ (pop-empty hw fifo w e))
          (inr (inl (rw e refl)))
    | inr (entry, (rest, e)) ↦
        elim (Bool-cases (hw.queue_accepts ((handed_over hw entry w).trace))) [
          | inl a ↦
              rw
                (bind_ok (opcode_queue_pop hw) finish_if w true _
                  (pop-accepted hw fifo w entry rest e a))
                (popped entry w h)
          | inr a ↦
              rw
                (bind_ok (opcode_queue_pop hw) finish_if w false _
                  (pop-rejected hw fifo w entry rest e a))
                (inr (inr (refused_now entry w a)))
        ]
  ])

  pub response-EmptyUnlessRefused :
      (header : DriverHeader) → Keeps (EmptyUnlessRefused hw) (on_opcode_cmd_response hw header)
  unfolding on_opcode_cmd_response
  response-EmptyUnlessRefused header =
      Keeps->> (EmptyUnlessRefused hw) (opcode_read hw header) (opcode_queue_pop hw >>= finish_if)
        (opcode_read-Keeps (EmptyUnlessRefused hw) (EmptyUnlessRefused-Calm hw) hw header)
        finish-EmptyUnlessRefused

-- The world after the answer has been read, on a bus that acknowledges.
abbrev asked_answer : DriverHeader → World → World
asked_answer header w =
    let s = record (w.usb) { send_buf = set zeros 0 header.opcode_read_command } in
    let addr = header.max77958_slave_p1 in
    after
      (after (record w { usb = s }) (Event.i2c_write_timeout_us i2c0 addr (take 1 s.send_buf) true))
      (Event.i2c_read_timeout_us i2c0 addr 33 false)

abbrev pub read_back : Hardware → DriverHeader → World → World
read_back hw header w =
    let w1 = asked_answer header w in
    let bytes = map (λ b. u8 b) (hw.read_bytes w1.trace) in
    let buf = fill 33 bytes w.usb.op_code_return_buf in
    told hw "opcode_read: 0x%02x 0x%02x 0x%02x 0x%02x\n"
      (Arg.num (get_or buf 0 0)
        ∷ Arg.num (get_or buf 1 0)
        ∷ Arg.num (get_or buf 2 0)
        ∷ Arg.num (get_or buf 3 0)
        ∷ [])
      (record w1 { usb = record (w1.usb) { op_code_return_buf = buf } })

abbrev set_finished : World → World
set_finished w = record w { usb = record (w.usb) { opcodes_finished = true } }

-- What follows, for the commands that wait.
unfoldable pub answered : Hardware → List QueueEntry → World → World
answered hw [] w =
    set_finished
      (told hw "opcode_queue_pop: opcode_queue empty\n" [] (after w Event.opcode_queue_try_remove))
answered hw (entry ∷ rest) w =
    let w1 = handed_over hw entry w in
    if hw.queue_accepts w1.trace
    then told hw "added opcode entry to call_queue\n" [] w1
    else set_finished (told hw "ERROR: opcode_queue_pop: call_queue full\n" [] w1)

module _ (hw : Hardware) (acks : BusAcks hw) (header : DriverHeader) where
  opcode_read_lem : (w : World) → opcode_read hw header w ≡ ok tt (read_back hw header w)
  unfolding opcode_read rp2040_log write_send_buf
  opcode_read_lem w =
      simp (opcode_read, write_send_buf, ◌>>=◌, write_acked hw acks, read_acked hw acks)

  module _ (fifo : OpcodeFifo hw) where
    pop_lem :
        (w : World)
        → (opcode_queue_pop hw >>= finish_if) w ≡ ok tt (answered hw (contents w.trace) w)
    unfolding answered
    pop_lem w = elim (List-cases (contents w.trace)) [
      | inl e ↦
          bind_ok (opcode_queue_pop hw) finish_if w false _ (pop-empty hw fifo w e) ∙ rw e refl
      | inr (entry, (rest, e)) ↦
          elim (Bool-cases (hw.queue_accepts ((handed_over hw entry w).trace))) [
            | inl a ↦
                bind_ok (opcode_queue_pop hw) finish_if w true _
                  (pop-accepted hw fifo w entry rest e a)
                ∙ rw (e, answered, a) refl
            | inr a ↦
                bind_ok (opcode_queue_pop hw) finish_if w false _
                  (pop-rejected hw fifo w entry rest e a)
                ∙ rw (e, answered, a) refl
          ]
    ]

    -- On a bus that acknowledges, with a first in, first out opcode queue: the response to a command
    -- reads 33 bytes into op_code_return_buf, and then, when no command waits, sets opcodes_finished;
    -- when one waits and the queue of core 1 has room, hands over exactly the first and leaves the flag;
    -- and when that queue is full, loses the first command and sets opcodes_finished, even where more
    -- commands wait.
    pub on_opcode_cmd_response_lem :
        (w : World)
        → on_opcode_cmd_response hw header w
          ≡ ok tt (answered hw (contents w.trace) (read_back hw header w))
    unfolding on_opcode_cmd_response contents
    on_opcode_cmd_response_lem w =
        bind_ok (opcode_read hw header) (λ _. opcode_queue_pop hw >>= finish_if) w tt _
          (opcode_read_lem w)
        ∙ pop_lem (read_back hw header w)
