-- ===== src/Encoders.antt =====
-- src/quad_encoders.c: the update of the two encoders at start.
pub mod State
use smartphone_robot_firmwar.Base.{ℕ, ◌+◌, ◌-◌, ◌^◌, zero, suc, List, [], ◌∷◌, u32}
use smartphone_robot_firmwar.Board.Sdk.{Event, Arg}
use smartphone_robot_firmwar.Board.{
  Hardware, World, M, pure, ◌>>=◌, ◌>>◌, call, ask, gets, modify, rp2040_log,
}
use smartphone_robot_firmwar.Encoders.State.{Encoder, EncoderState}

-- The difference of two 32-bit patterns.
abbrev pub minus32 : ℕ → ℕ → ℕ
minus32 a b = u32 (a + (2 ^ 32 - u32 b))

-- The entry after a new count.
unfoldable pub updated : ℕ → Encoder → Encoder
updated count encoder = record {
  count_current = count;
  count_previous = count;
  count_delta = minus32 count encoder.count_previous;
}

-- `encoders[i]`, for 0 and 1.
unfoldable pub nth_encoder : ℕ → EncoderState → Encoder
nth_encoder zero state = state.encoder0
nth_encoder (suc i) state = state.encoder1

unfoldable pub put_encoder : ℕ → Encoder → EncoderState → EncoderState
put_encoder zero encoder state = record state { encoder0 = encoder }
put_encoder (suc i) encoder state = record state { encoder1 = encoder }

module _ (hw : Hardware) where
  -- One round of the loop.
  unfoldable pub update_encoder : ℕ → M (Unit {0})
  update_encoder i = do
    count ← ask hw.encoder_count (Event.quadrature_encoder_get_count i)
    modify (λ w. record w {
      encoders = put_encoder i (updated (u32 count) (nth_encoder i w.encoders)) w.encoders;
    })
    encoder ← gets (λ w. nth_encoder i w.encoders)
    rp2040_log hw "Encoder %d: %ld, delta: %ld\n"
        (Arg.num i ∷ Arg.num encoder.count_current ∷ Arg.num encoder.count_delta ∷ [])

  unfoldable pub quad_encoder_update : M (Unit {0})
  quad_encoder_update = do update_encoder 0; update_encoder 1

  -- The two state machines count channels 12 and 14.
  unfoldable pub encoder_init : M (Unit {0})
  encoder_init = do
    call (Event.setup "pio_add_program quadrature_encoder_program" [])
    call (Event.setup "quadrature_encoder_program_init" (0 ∷ hw.pio_offset ∷ 12 ∷ 0 ∷ []))
    call (Event.setup "quadrature_encoder_program_init" (1 ∷ hw.pio_offset ∷ 14 ∷ 0 ∷ []))
