-- ===== src/Encoders/State.antt =====
-- The entries of `encoders` in src/quad_encoders.c, as 32-bit patterns, less the speeds that no
-- function reads or writes.
use smartphone_robot_firmwar.Base.{ℕ}

pub record Encoder : Type 0 where
  pub count_current : ℕ
  pub count_previous : ℕ
  pub count_delta : ℕ

pub record EncoderState : Type 0 where
  pub encoder0 : Encoder
  pub encoder1 : Encoder
