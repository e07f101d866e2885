-- ===== src/Adapter/Recovery.antt =====
-- opensearch-dbaas-adapter/basic/users_recovery.go.
pub mod Batches
use qubership_opensearch.Prelude.{
  ℕ, zero, suc, String, Bool, true, not, ◌==◌, ◌<>◌, length, take, drop, is_empty, is_some, Option,
  none, some, List, [], ◌∷◌, if◌then◌else◌, map,
}
use qubership_opensearch.Http.{World, Error, Exec, pure, sleep, ◌>>=◌, ◌>>◌}
use qubership_opensearch.DisasterRecovery.Process.{try}
use qubership_opensearch.Adapter.Users.{ConnectionProperties, Change, get_user_content, patch_users}

-- recoveryState, with the constants of the same names.
pub data RecoveryState : Type 0 where
  idle running failed done : RecoveryState

abbrev pub batch_size : ℕ
batch_size = 100

-- RecoverUsersHandler for a request that decodes: the new state, and whether `recovery` is started.
-- A request that does not is answered with 500 and changes nothing.
unfoldable pub recover_users_handler : RecoveryState → RecoveryState × Bool
recover_users_handler idle = (running, true)
recover_users_handler running = (running, Bool.false)
recover_users_handler failed = (running, true)
recover_users_handler done = (running, true)

-- GetRecoveryStateHandler
unfoldable pub get_recovery_state_handler : RecoveryState → String
get_recovery_state_handler idle = "idle"
get_recovery_state_handler running = "running"
get_recovery_state_handler failed = "failed"
get_recovery_state_handler done = "done"

unfoldable pub change_of : ConnectionProperties → Change
change_of p = record { operation = "add"; path = "/" <> p.username; value = get_user_content p }

module _ (w : World) where
  -- The attempts that are left for a batch, and the error of the last one.
  unfoldable pub attempt_batch : ℕ → Option Error → List Change → Exec (Option Error)
  attempt_batch zero last batch = pure last
  attempt_batch (suc attempts) last batch = do
    r ← try (patch_users w batch)
    if is_some r then (do sleep 10000; attempt_batch attempts r batch) else pure none

  -- The loop over the changes from `position` on. It ends within as many rounds as there are changes.
  unfoldable pub recover_from : ℕ → List Change → Exec RecoveryState
  recover_from zero changes = pure (if is_empty changes then done else running)
  recover_from (suc fuel) changes = if is_empty changes then pure done else (do
    r ← attempt_batch 3 none (take batch_size changes)
    if is_some r then pure failed else recover_from fuel (drop batch_size changes))

  -- The state that the goroutine leaves.
  unfoldable pub recovery : List ConnectionProperties → Exec RecoveryState
  recovery properties =
      let changes = map change_of properties in recover_from (length changes) changes
