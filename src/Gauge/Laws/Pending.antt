-- ===== src/Gauge/Laws/Pending.antt =====
-- src/bq27742_g1.c: which edge of the gauge's pin is enabled while a parse is pending.
use smartphone_robot_firmwar.Base.{
  ℕ, Bool, true, false, ◌&&◌, not, List, [], ◌∷◌, ◌==◌, if◌then◌else◌, ◌≡◌, refl, ==-refl,
  Bool-cases, inl, inr, arith,
}
use smartphone_robot_firmwar.Board.Sdk.{Event, EntryFunc}
use smartphone_robot_firmwar.Board.{Hardware, World, ok, M, pure, ◌>>=◌, ◌>>◌, when}
use smartphone_robot_firmwar.Board.Queue.{call_queue_try_add_nonblocking}
use smartphone_robot_firmwar.Board.Keeps.{
  Post, Keeps, keeps, Keeps-pure, Keeps->>=, Keeps->>, Keeps-when, Post-if_at,
}
use smartphone_robot_firmwar.Board.Calm.{Calm, Mundane, nonblocking-Keeps}
use smartphone_robot_firmwar.Gauge.Laws.Handlers.{
  rearm_if_high-Keeps, on_interrupt-Keeps, parse-Keeps,
}
use smartphone_robot_firmwar.Gauge.Transfer.{}
use smartphone_robot_firmwar.Gauge.Irq.{
  bq27742_g1_rearm_assert_irq, rearm_if_high, bq27742_g1_queue_parse_interrupt,
  bq27742_g1_on_interrupt, bq27742_g1_parse_interrupt_vals,
}

-- Whether an edge of a pin is enabled, from the calls so far, newest first.
unfoldable pub irq_enabled : ℕ → ℕ → List Event → Bool
irq_enabled pin edge [] = false
irq_enabled pin edge (Event.gpio_set_irq_enabled p m enabled ∷ trace) =
    if p == pin && m == edge then enabled else irq_enabled pin edge trace
irq_enabled pin edge (_ ∷ trace) = irq_enabled pin edge trace

-- Exactly one edge is enabled: the falling one, or the rising one while a parse is pending.
abbrev pub OneEdge : World → Type 0
OneEdge w =
    (irq_enabled w.gauge.gpio_interrupt 4 w.trace ≡ not w.gauge.interrupt_pending)
    × (irq_enabled w.gauge.gpio_interrupt 8 w.trace ≡ w.gauge.interrupt_pending)

irq_enabled-Mundane :
    (e : Event) (pin edge : ℕ) (t : List Event)
    → Mundane e
    → irq_enabled pin edge (e ∷ t) ≡ irq_enabled pin edge t
unfolding irq_enabled
irq_enabled-Mundane (Event.gpio_set_irq_enabled p k b) pin edge t m = ground arith
irq_enabled-Mundane _ pin edge t m = refl

-- No driver but the gauge's speaks of its pin.
pub OneEdge-Calm : Calm OneEdge
OneEdge-Calm = record {
  quiet = λ w e m h.
      rw
        (
          irq_enabled-Mundane e w.gauge.gpio_interrupt 4 w.trace m,
          irq_enabled-Mundane e w.gauge.gpio_interrupt 8 w.trace m,
        )
        h;
  logs = λ hw w m args h. h;
  motor = λ w s h. h;
  wireless = λ w s h. h;
  charger = λ w s h. h;
  usb = λ w s e h. h;
  core1 = λ w b h. h;
}

pub rearm-Keeps : Keeps OneEdge bq27742_g1_rearm_assert_irq
unfolding irq_enabled bq27742_g1_rearm_assert_irq
rearm-Keeps = keeps (λ w h. rw (==-refl w.gauge.gpio_interrupt) (refl, refl))

module _ (hw : Hardware) where
  -- The driver disables the falling edge and waits for the rising one, whatever was pending.
  pub queue-Keeps : Keeps OneEdge (bq27742_g1_queue_parse_interrupt hw)
  unfolding bq27742_g1_queue_parse_interrupt irq_enabled
  queue-Keeps = keeps (λ w h. Post-if_at OneEdge w.gauge.interrupt_pending (pure tt) _ w h (
      (Keeps->>= OneEdge
          (call_queue_try_add_nonblocking hw EntryFunc.bq27742_g1_parse_interrupt_vals 0)
          (λ added. when (not added) (rearm_if_high hw))
          (nonblocking-Keeps OneEdge OneEdge-Calm hw EntryFunc.bq27742_g1_parse_interrupt_vals 0)
          (λ added.
            Keeps-when OneEdge (not added) (rearm_if_high hw)
              (rearm_if_high-Keeps OneEdge OneEdge-Calm hw rearm-Keeps))).at
        _ (rw (==-refl w.gauge.gpio_interrupt) (refl, refl))))

  pub bq27742_g1_on_interrupt-OneEdge :
      (gpio event_mask : ℕ) → Keeps OneEdge (bq27742_g1_on_interrupt hw gpio event_mask)
  bq27742_g1_on_interrupt-OneEdge gpio event_mask =
      on_interrupt-Keeps OneEdge OneEdge-Calm hw rearm-Keeps queue-Keeps gpio event_mask

  pub bq27742_g1_parse_interrupt_vals-OneEdge : Keeps OneEdge (bq27742_g1_parse_interrupt_vals hw)
  bq27742_g1_parse_interrupt_vals-OneEdge = parse-Keeps OneEdge OneEdge-Calm hw rearm-Keeps

-- What the interrupt and core 1 call.
pub data Handler : Type 0 where
  on_interrupt : ℕ → ℕ → Handler
  parse : Handler

module _ (hw : Hardware) where
  unfoldable pub run_handlers : List Handler → M (Unit {0})
  run_handlers [] = pure tt
  run_handlers (on_interrupt gpio event_mask ∷ hs) = do
    bq27742_g1_on_interrupt hw gpio event_mask
    run_handlers hs
  run_handlers (parse ∷ hs) = do _ ← bq27742_g1_parse_interrupt_vals hw; run_handlers hs

  handlers-Keeps : (hs : List Handler) → Keeps OneEdge (run_handlers hs)
  unfolding run_handlers
  handlers-Keeps [] = Keeps-pure OneEdge tt
  handlers-Keeps (on_interrupt gpio event_mask ∷ hs) =
      Keeps->> OneEdge (bq27742_g1_on_interrupt hw gpio event_mask) (run_handlers hs)
        (bq27742_g1_on_interrupt-OneEdge hw gpio event_mask) (handlers-Keeps hs)
  handlers-Keeps (parse ∷ hs) =
      Keeps->>= OneEdge (bq27742_g1_parse_interrupt_vals hw) (λ _. run_handlers hs)
        (bq27742_g1_parse_interrupt_vals-OneEdge hw) (λ _. handlers-Keeps hs)

  -- From a world in which exactly one edge of the gauge's pin is enabled (the falling one, or the
  -- rising one while a parse is pending), every sequence of interrupts on any pins with any event
  -- masks, and of parses, leaves such a world, on all answers of the board, also where a failing bus
  -- stops the firmware half way.
  pub run_handlers-OneEdge :
      (hs : List Handler) (w : World) → OneEdge w → Post OneEdge (run_handlers hs w)
  run_handlers-OneEdge hs w h = (handlers-Keeps hs).at w h

  -- Where the queue takes the entry, a falling edge on the gauge's pin queues one parse, marks it
  -- pending and turns the pin to the rising edge; while a parse is pending it is only acknowledged.
  pub falling_edge_lem :
      (w : World)
      → ((h : List Event) → hw.queue_accepts h ≡ true)
      → bq27742_g1_on_interrupt hw w.gauge.gpio_interrupt 4 w ≡ (
          let pin = w.gauge.gpio_interrupt in
          let acked = Event.gpio_acknowledge_irq pin 4 ∷ w.trace in
          if w.gauge.interrupt_pending
          then ok tt (record w { trace = acked })
          else ok tt (record w {
            trace =
                Event.queue_try_add
                  (record { func = EntryFunc.bq27742_g1_parse_interrupt_vals; arg = 0 })
                ∷ Event.gpio_set_irq_enabled pin 8 true
                ∷ Event.gpio_set_irq_enabled pin 4 false
                ∷ acked;
            gauge = record (w.gauge) { interrupt_pending = true };
          }))
  unfolding bq27742_g1_on_interrupt bq27742_g1_queue_parse_interrupt call_queue_try_add_nonblocking
  falling_edge_lem w accepts = elim (Bool-cases w.gauge.interrupt_pending) [
    | inl e ↦ simp (bq27742_g1_queue_parse_interrupt, ◌>>=◌, ==-refl, e)
    | inr e ↦ simp (bq27742_g1_queue_parse_interrupt, ◌>>=◌, ==-refl, e, accepts) (ground arith)
  ]
