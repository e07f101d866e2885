-- ===== src/DisasterRecovery/Process.antt =====
-- The steps of a switchover in controllers/disaster_recovery_reconciler.go that only talk to
-- OpenSearch: removePreviousReplication, runReplicationProcess, stopReplication and checkReplication.
use qubership_opensearch.Prelude.{
  ℕ, zero, suc, ◌⊎◌, inl, inr, Bool, false, Option, none, some, if◌then◌else◌,
}
use qubership_opensearch.Http.{
  World, Error, message, Exec, pure, raise, attempt, sleep, ◌>>=◌, ◌>>◌,
}
use qubership_opensearch.Replication.Manager.{
  ReplicationManager, configure, start, remove_replication_rule, stop_replication,
  delete_admin_replication_tasks,
}
use qubership_opensearch.Replication.Indices.{
  delete_indices, delete_indices_by_pattern, stop_indices_replication_by_pattern,
}
use qubership_opensearch.DisasterRecovery.Checker
use qubership_opensearch.DisasterRecovery.Checker.{Health, up, degraded, down}

-- `err = f()`
unfoldable pub error_of : (Unit {0}) ⊎ Error → Option Error
error_of (inl done) = none
error_of (inr e) = some e

unfoldable pub try : Exec (Unit {0}) → Exec (Option Error)
try m = do r ← attempt m; pure (error_of r)

-- `if err == nil { err = f() }`
unfoldable pub if_no_error : Option Error → Exec (Unit {0}) → Exec (Option Error)
if_no_error none m = try m
if_no_error (some e) m = pure (some e)

unfoldable pub is_healthy : Health ⊎ Error → Bool
is_healthy (inl up) = Bool.true
is_healthy (inl degraded) = false
is_healthy (inl down) = false
is_healthy (inr e) = false

-- The constant `interval`, in milliseconds.
abbrev pub poll_interval : ℕ
poll_interval = 10000

-- wait.Poll: it waits before each attempt. How many attempts end before the timeout is up to the
-- clock, and so an argument.
unfoldable pub poll : ℕ → Exec Bool → Exec (Unit {0})
poll zero condition = raise (message "timed out waiting for the condition")
poll (suc attempts) condition = do
  sleep poll_interval
  done ← condition
  if done then pure tt else poll attempts condition

module _ (w : World) (rm : ReplicationManager) where
  unfoldable pub remove_previous_replication : Exec (Unit {0})
  remove_previous_replication = do
    remove_replication_rule w rm
    stop_replication w rm
    stop_indices_replication_by_pattern w rm rm.pattern
    delete_admin_replication_tasks w rm

  unfoldable pub run_replication_process : Exec (Unit {0})
  run_replication_process = do delete_indices w rm; sleep 2000; configure w rm; start w rm

  -- The error of the deletion of ".tasks" is dropped.
  unfoldable pub stop_replication_process : Exec (Unit {0})
  stop_replication_process = do
    remove_previous_replication
    attempt (delete_indices_by_pattern w rm ".tasks")
    pure tt

  unfoldable pub see_healthy : Exec Bool
  see_healthy = do
    status ← attempt (Checker.check_replication w rm.rest_client)
    pure (is_healthy status)

  unfoldable pub check_replication : ℕ → Exec (Unit {0})
  check_replication attempts = poll attempts see_healthy
