-- ===== src/Peripherals/EventNames.antt =====
-- src/interupts.c: the names of a pin's events, as the characters that are written into the buffer.
use smartphone_robot_firmwar.Base.{
  ℕ, ◌+◌, ◌*◌, bit_and, bit_xor, ◌≤◌, Bool, true, false, List, [], ◌∷◌, ◌++◌, length, ◌==◌,
  if◌then◌else◌, ◌≡◌, refl, arith,
}

abbrev pub level_low : List ℕ
level_low = 76 ∷ 69 ∷ 86 ∷ 69 ∷ 76 ∷ 95 ∷ 76 ∷ 79 ∷ 87 ∷ []

abbrev pub level_high : List ℕ
level_high = 76 ∷ 69 ∷ 86 ∷ 69 ∷ 76 ∷ 95 ∷ 72 ∷ 73 ∷ 71 ∷ 72 ∷ []

abbrev pub edge_fall : List ℕ
edge_fall = 69 ∷ 68 ∷ 71 ∷ 69 ∷ 95 ∷ 70 ∷ 65 ∷ 76 ∷ 76 ∷ []

abbrev pub edge_rise : List ℕ
edge_rise = 69 ∷ 68 ∷ 71 ∷ 69 ∷ 95 ∷ 82 ∷ 73 ∷ 83 ∷ 69 ∷ []

-- `gpio_irq_str`
abbrev pub gpio_irq_str : List (List ℕ)
gpio_irq_str = level_low ∷ level_high ∷ edge_fall ∷ edge_rise ∷ []

abbrev pub comma : List ℕ
comma = 44 ∷ 32 ∷ []

-- The loop over the names that are left, `mask` being the bit of the first of them.
unfoldable pub write_events : List (List ℕ) → ℕ → ℕ → List ℕ
write_events [] mask events = 0 ∷ []
write_events (name ∷ names) mask events =
    let skipped = write_events names (mask * 2) events in
    let cleared = bit_and events (bit_xor 0xffffffff mask) in
    let written = write_events names (mask * 2) cleared in
    if bit_and events mask == 0
    then skipped
    else name ++ (if cleared == 0 then [] else comma) ++ written

unfoldable pub gpio_event_string : ℕ → List ℕ
gpio_event_string events = write_events gpio_irq_str 1 events

-- The names of the bits that are set, and a list of names with ", " between two of them.
unfoldable pub chosen : List Bool → List (List ℕ) → List (List ℕ)
chosen (true ∷ bits) (name ∷ names) = name ∷ chosen bits names
chosen (false ∷ bits) (name ∷ names) = chosen bits names
chosen _ _ = []

unfoldable pub joined : List (List ℕ) → List ℕ
joined [] = []
joined (name ∷ []) = name
joined (name ∷ names) = name ++ comma ++ joined names

-- The events word with these four bits.
abbrev pub with_bits : Bool → Bool → Bool → Bool → ℕ
with_bits b0 b1 b2 b3 =
    (if b0 then 1 else 0) + (if b1 then 2 else 0) + (if b2 then 4 else 0) + (if b3 then 8 else 0)

-- For events of the four known kinds, the function writes the names of those that are set, in the
-- order of their bits and with ", " between them, and the terminating zero, in at most 44 bytes.
pub gpio_event_string_lem :
    (b0 b1 b2 b3 : Bool)
    → (gpio_event_string (with_bits b0 b1 b2 b3)
        ≡ joined (chosen (b0 ∷ b1 ∷ b2 ∷ b3 ∷ []) gpio_irq_str) ++ 0 ∷ [])
      × (length (gpio_event_string (with_bits b0 b1 b2 b3)) ≤ 44)
unfolding gpio_event_string write_events chosen joined
gpio_event_string_lem true true true true = (refl, omega arith)
gpio_event_string_lem true true true false = (refl, omega arith)
gpio_event_string_lem true true false true = (refl, omega arith)
gpio_event_string_lem true true false false = (refl, omega arith)
gpio_event_string_lem true false true true = (refl, omega arith)
gpio_event_string_lem true false true false = (refl, omega arith)
gpio_event_string_lem true false false true = (refl, omega arith)
gpio_event_string_lem true false false false = (refl, omega arith)
gpio_event_string_lem false true true true = (refl, omega arith)
gpio_event_string_lem false true true false = (refl, omega arith)
gpio_event_string_lem false true false true = (refl, omega arith)
gpio_event_string_lem false true false false = (refl, omega arith)
gpio_event_string_lem false false true true = (refl, omega arith)
gpio_event_string_lem false false true false = (refl, omega arith)
gpio_event_string_lem false false false true = (refl, omega arith)
gpio_event_string_lem false false false false = (refl, omega arith)
