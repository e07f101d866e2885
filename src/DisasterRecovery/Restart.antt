-- ===== src/DisasterRecovery/Restart.antt =====
-- checkReplication, restartReplication and restartReplicationOnFailure of
-- controllers/replication_watcher.go.
pub mod Failures
pub mod Quietness
use qubership_opensearch.Prelude.{
  ℕ, ◌⊎◌, inl, inr, String, Bool, true, false, not, ◌&&◌, ◌==◌, contains, is_empty, Option, none,
  some, List, [], ◌∷◌, filter_bool, if◌then◌else◌,
}
use qubership_opensearch.Http.{
  Event, World, Error, message, message_texts, Exec, Result, ok, pure, raise, attempt, ensure,
  sleep, ◌>>=◌, ◌>>◌,
}
use qubership_opensearch.Replication.Stats.{ReplicationIndexStats, RuleStats}
use qubership_opensearch.Replication.Manager.{
  ReplicationManager, get_auto_follow_rule_stats, get_index_replication_status,
}
use qubership_opensearch.Replication.Indices.{get_indices_by_pattern_exclude_service}
use qubership_opensearch.DisasterRecovery.Checker.{is_visible, failed_status}
use qubership_opensearch.DisasterRecovery.Process.{
  remove_previous_replication, run_replication_process,
}

-- The constant restartWaitPeriod, in milliseconds.
abbrev pub restart_wait_period : ℕ
restart_wait_period = 60000

-- An index whose status cannot be read is only logged, and so is one that was lost on the active
-- side.
unfoldable pub is_failed : ReplicationIndexStats ⊎ Error → Bool
is_failed (inr e) = false
is_failed (inl s) =
    if s.status == failed_status
    then true
    else s.status == "PAUSED" && not (contains s.reason "IndexNotFoundException")

module _ (w : World) (rm : ReplicationManager) where
  unfoldable pub failed_replications : List String → Exec (List String)
  failed_replications [] = pure []
  failed_replications (index ∷ indices) = do
    status ← attempt (get_index_replication_status w rm index)
    rest ← failed_replications indices
    pure (if is_failed status then index ∷ rest else rest)

  -- The branch behind the read of the indices. A failed read is only logged.
  unfoldable pub check_listed : List String ⊎ Error → Exec (Unit {0})
  check_listed (inr e) = pure tt
  check_listed (inl indices) = do
    failed ← failed_replications indices
    ensure (is_empty failed)
        (message_texts "replication does not work correctly, there are failed indices" failed)

  unfoldable pub check_found : RuleStats → Exec (Unit {0})
  check_found rule =
      let failed = filter_bool is_visible rule.failed_indices in
      if not (is_empty failed)
      then raise
          (message_texts "replication does not work correctly, there are failed indices" failed)
      else (do
        indices ← attempt (get_indices_by_pattern_exclude_service w rm rm.pattern)
        check_listed indices)

  -- After a failed read the rule is nil, as it is where there is none.
  unfoldable pub check_rule : Bool → Option RuleStats ⊎ Error → Exec (Unit {0})
  check_rule allow_no_rule (inl (some rule)) = check_found rule
  check_rule allow_no_rule (inl none) = ensure allow_no_rule (message "there is no autofollow rule")
  check_rule allow_no_rule (inr e) = ensure allow_no_rule (message "there is no autofollow rule")

  unfoldable pub check_replication : Bool → Exec (Unit {0})
  check_replication allow_no_rule = do
    rule ← attempt (get_auto_follow_rule_stats w rm)
    check_rule allow_no_rule rule

  unfoldable pub after_start : (Unit {0}) ⊎ Error → Exec (Unit {0})
  after_start (inr e) = pure tt
  after_start (inl done) = sleep restart_wait_period

  unfoldable pub after_removal : (Unit {0}) ⊎ Error → Exec (Unit {0})
  after_removal (inr e) = pure tt
  after_removal (inl done) = do
    started ← attempt (run_replication_process w rm)
    after_start started

  -- Errors are only logged.
  unfoldable pub restart_replication : Exec (Unit {0})
  restart_replication = do
    removed ← attempt (remove_previous_replication w rm)
    after_removal removed

  -- The state of the watcher, which the reconciler sets meanwhile, is a function of the events.
  module _ (is_paused : List Event → Bool) where
    unfoldable pub read_paused : Exec Bool
    read_paused log = (ok (is_paused log), log)

    unfoldable pub after_check : (Unit {0}) ⊎ Error → Exec (Unit {0})
    after_check (inl done) = pure tt
    after_check (inr e) = do paused ← read_paused; if paused then pure tt else restart_replication

    unfoldable pub restart_replication_on_failure : Exec (Unit {0})
    restart_replication_on_failure = do
      checked ← attempt (check_replication false)
      after_check checked
