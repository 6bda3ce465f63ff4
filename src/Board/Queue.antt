-- ===== src/Board/Queue.antt =====
-- src/robot.c: how the drivers put work into `call_queue`.
use smartphone_robot_firmwar.Base.{ℕ, Bool, [], if◌then◌else◌}
use smartphone_robot_firmwar.Board.Sdk.{EntryFunc}
use smartphone_robot_firmwar.Board.{
  Hardware, M, pure, ◌>>=◌, ◌>>◌, assert_false, rp2040_log, queue_try_add,
}

module _ (hw : Hardware) where
  unfoldable pub call_queue_try_add : EntryFunc → ℕ → M (Unit {0})
  call_queue_try_add func arg = do
    added ← queue_try_add hw func arg
    if added then pure tt else (do rp2040_log hw "ERROR: call_queue is full" []; assert_false)

  unfoldable pub call_queue_try_add_nonblocking : EntryFunc → ℕ → M Bool
  call_queue_try_add_nonblocking func arg = queue_try_add hw func arg
