-- ===== src/DisasterRecovery/Switchover.antt =====
-- The two switchovers of Configure in controllers/disaster_recovery_reconciler.go, to the mode
-- "standby" and away from it, as far as they talk to OpenSearch and to the other side.
pub mod Removal
pub mod Caution
pub mod Activation
use qubership_opensearch.Prelude.{
  ℕ, ◌⊎◌, inl, inr, String, Bool, true, false, not, ◌&&◌, ◌==◌, ◌<>◌, contains, Option, none, some,
  List, [], is_some, if◌then◌else◌,
}
use qubership_opensearch.Http.{
  World, Error, message, Exec, pure, raise, attempt, sleep, dial, ◌>>=◌, ◌>>◌,
}
use qubership_opensearch.Replication.Manager.{ReplicationManager, get_replicated_indices}
use qubership_opensearch.Replication.Check.{execute_replication_check}
use qubership_opensearch.DisasterRecovery.Process.{
  try, if_no_error, remove_previous_replication, run_replication_process, stop_replication_process,
  check_replication,
}
use qubership_opensearch.DisasterRecovery.Restart

-- An empty response says that the other side is active.
unfoldable pub is_other_side_active : Option String → Bool
is_other_side_active none = false
is_other_side_active (some text) = contains text "EOF"

-- The values of `err` and of `needReturnError` behind a switchover.
pub record Switched : Type 0 where
  pub error : Option Error
  pub need_return : Bool

-- A nil slice where the read has failed.
unfoldable pub index_names : List String ⊎ Error → List String
index_names (inl indices) = indices
index_names (inr e) = []

module _ (w : World) (rm : ReplicationManager) where
  -- The argument is the address in the config map, or the error of its read.
  unfoldable pub check_connection_with_other_side : String ⊎ Error → Exec (Unit {0})
  check_connection_with_other_side (inr e) = raise e
  check_connection_with_other_side (inl url) = do
    answer ← dial w ("http://" <> url)
    if is_other_side_active answer
        then pure tt
        else raise (message "there is active replication on the other side")

  -- `status_mode` is the mode that the status of the resource still has.
  unfoldable pub switch_to_standby : String → String ⊎ Error → ℕ → Exec Switched
  switch_to_standby status_mode found attempts = do
    removed ←
        (if not (status_mode == "active")
          then try (remove_previous_replication w rm)
          else pure none)
    connected ← if_no_error removed (check_connection_with_other_side found)
    started ← if_no_error connected (run_replication_process w rm)
    checked ← if_no_error started (check_replication w rm attempts)
    pure (record {
      error = checked;
      need_return = if is_some removed then true else not (is_some connected);
    })

  -- The error of the read of the indices is overwritten by the result of the check.
  unfoldable pub check_indices : Exec (Option Error)
  check_indices = do
    indices ← attempt (get_replicated_indices w rm)
    try (execute_replication_check w rm (index_names indices))

  unfoldable pub check_behind : Option Error → Bool → Exec (Option Error)
  check_behind checked check_needed =
      if not (is_some checked) && check_needed then check_indices else pure checked

  -- `err` before the replication is stopped.
  unfoldable pub check_before_stop : Bool → Exec (Option Error)
  check_before_stop check_needed = do
    checked ← try (Restart.check_replication w rm true)
    check_behind checked check_needed
