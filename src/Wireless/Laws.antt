-- ===== src/Wireless/Laws.antt =====
-- src/ncp3901.c and src/STWLC38JRM.c: what an edge of the wireless charger's pin leads to.
use smartphone_robot_firmwar.Base.{
  ℕ, Bool, true, List, ◌∷◌, bit_and, ◌==◌, not, if◌then◌else◌, ◌≡◌, arith, Bool-cases, inl, inr,
}
use smartphone_robot_firmwar.Board.Sdk.{Event, EntryFunc}
use smartphone_robot_firmwar.Board.{Hardware, World, ok, ◌>>=◌}
use smartphone_robot_firmwar.Board.Queue.{call_queue_try_add}
use smartphone_robot_firmwar.Wireless.{edge_branch, ncp3901_on_wireless_charger_interrupt}

abbrev pub queued : EntryFunc → ℕ → Event
queued func arg = Event.queue_try_add (record { func = func; arg = arg })

-- The history after an edge is handled, the self test's entry included.
abbrev pub edge_handled : ℕ → ℕ → EntryFunc → Bool → List Event → List Event
edge_handled gpio edge func testing t =
    if testing
    then queued EntryFunc.ncp3901_test_response 1
      ∷ queued func 0
      ∷ Event.gpio_acknowledge_irq gpio edge
      ∷ t
    else queued func 0 ∷ Event.gpio_acknowledge_irq gpio edge ∷ t

module _ (hw : Hardware) (accepts : (h : List Event) → hw.queue_accepts h ≡ true) where
  edge_branch_lem :
      (gpio edge : ℕ) (func : EntryFunc) (w : World)
      → edge_branch hw gpio edge func w
        ≡ ok tt (record w {
          trace = edge_handled gpio edge func w.wireless.test_ncp3901_started w.trace;
        })
  unfolding edge_branch call_queue_try_add
  edge_branch_lem gpio edge func w = elim (Bool-cases w.wireless.test_ncp3901_started) [
    | inl e ↦ simp (edge_branch, ◌>>=◌, accepts, e) (ground arith)
    | inr e ↦ simp (edge_branch, ◌>>=◌, accepts, e) (ground arith)
  ]

  -- Where the queue takes the entries, a rising edge of the pin queues the detached handler, alone a
  -- falling edge the attached handler, and where both edges are reported only the rising one is
  -- acknowledged and handled; a running self test gets its entry after that, and other events do
  -- nothing.
  pub ncp3901_on_wireless_charger_interrupt_lem :
      (gpio event_mask : ℕ) (w : World)
      → ncp3901_on_wireless_charger_interrupt hw gpio event_mask w ≡ (
          let testing = w.wireless.test_ncp3901_started in
          let after_edge = λ (edge : ℕ) (func : EntryFunc).
            ok tt (record w { trace = edge_handled gpio edge func testing w.trace }) in
          if not (bit_and event_mask 8 == 0)
          then after_edge 8 EntryFunc.ncp3901_on_wireless_charger_detached
          else if not (bit_and event_mask 4 == 0)
          then after_edge 4 EntryFunc.ncp3901_on_wireless_charger_attached
          else ok tt w)
  unfolding ncp3901_on_wireless_charger_interrupt
  ncp3901_on_wireless_charger_interrupt_lem gpio event_mask w =
      elim (Bool-cases (not (bit_and event_mask 8 == 0))) [
        | inl e ↦ simp (ncp3901_on_wireless_charger_interrupt, edge_branch_lem, e)
        | inr e ↦ elim (Bool-cases (not (bit_and event_mask 4 == 0))) [
          | inl e' ↦ simp (ncp3901_on_wireless_charger_interrupt, edge_branch_lem, e, e')
          | inr e' ↦ simp (ncp3901_on_wireless_charger_interrupt, edge_branch_lem, e, e')
        ]
      ]
