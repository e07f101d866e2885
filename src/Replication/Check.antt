-- ===== src/Replication/Check.antt =====
-- executeReplicationCheck and updateInProgressIndices of replication_manager.go.
use Prim.Native.Char.{code}
use qubership_opensearch.Prelude.{
  ℕ, zero, suc, String, Bool, not, ◌||◌, ◌==◌, ◌<>◌, eqb, is_empty, Option, none, some, List, [],
  ◌++◌, ◌∷◌, if◌then◌else◌, Dict, insert,
}
use qubership_opensearch.Prelude.Int.{ℤ, ltb_ℤ, eqb_ℤ}
use qubership_opensearch.Http.{
  World, message, message_texts, Exec, pure, raise, lift, sleep, ◌>>=◌, ◌>>◌,
}
use qubership_opensearch.Replication.Stats.{ReplicationIndexStats}
use qubership_opensearch.Replication.Manager.{
  ReplicationManager, status_path, get_replication_index_stats, get_index_replication_status,
}

abbrev pub replication_attempts_number : ℕ
replication_attempts_number = 5

-- In milliseconds.
abbrev pub replication_check_timeout : ℕ
replication_check_timeout = 15000

-- strings.ReplaceAll(pattern, "*", ".*")
unfoldable pub regex_of : String → String
regex_of String.[] = ""
regex_of (String.◌∷◌ c s) =
    let rest = regex_of s in if eqb (code c) b'*' then ".*" <> rest else String.◌∷◌ c rest

-- What the first loop collects: the leader checkpoints of the indices that lag behind, and the
-- indices that do not replicate.
pub record Collected : Type 0 where
  pub in_progress : Dict ℤ
  pub failed : List String

abbrev pub is_replicating : ReplicationIndexStats → Bool
is_replicating stats = stats.status == "SYNCING" || stats.status == "BOOTSTRAPPING"

-- One round of the first loop, for an index that matches. `append` puts a failed index last.
unfoldable pub collect : String → ReplicationIndexStats → Collected → Collected
collect index stats c =
    if is_replicating stats
    then (if eqb_ℤ stats.details.leader_checkpoint stats.details.follower_checkpoint
        then c
        else record c { in_progress = insert index stats.details.leader_checkpoint c.in_progress })
    else record c { failed = c.failed ++ index ∷ [] }

-- regexp.MatchString
unfoldable pub match_string : World → String → String → Option Bool
match_string w regex s = elim (w.compile regex) [ none ↦ none | some matches ↦ some (matches s) ]

module _ (w : World) (rm : ReplicationManager) where
  unfoldable pub check_index : String → Collected → Exec Collected
  check_index index c = do
    matched ←
        lift (message_texts "invalid regular expression" (rm.pattern ∷ []))
          (match_string w (regex_of rm.pattern) index)
    if not matched
        then pure c
        else do stats ← get_index_replication_status w rm index; pure (collect index stats c)

  unfoldable pub check_indices : List String → Collected → Exec Collected
  check_indices [] c = pure c
  check_indices (index ∷ indices) c = do c' ← check_index index c; check_indices indices c'

  -- One round of updateInProgressIndices.
  unfoldable pub update_index : String → ℤ → Dict ℤ → Exec (Dict ℤ)
  update_index index leader_checkpoint rest = do
    stats ← get_replication_index_stats w rm (status_path index)
    pure (
        if ltb_ℤ stats.details.follower_checkpoint leader_checkpoint
        then insert index leader_checkpoint rest
        else rest)

  unfoldable pub update_indices : Dict ℤ → Dict ℤ → Exec (Dict ℤ)
  update_indices [] rest = pure rest
  update_indices ((index, checkpoint) ∷ more) rest = do
    rest' ← update_index index checkpoint rest
    update_indices more rest'

  unfoldable pub update_in_progress_indices : Dict ℤ → Exec (Dict ℤ)
  update_in_progress_indices in_progress = update_indices in_progress []

  -- The loop `for attempts > 0`. Each round starts from the same map.
  unfoldable pub await_progress : ℕ → Dict ℤ → Exec (Unit {0})
  await_progress zero in_progress = raise (message "replication check was failed after 5 attempts")
  await_progress (suc attempts) in_progress = do
    rest ← update_in_progress_indices in_progress
    if is_empty rest
        then pure tt
        else do sleep replication_check_timeout; await_progress attempts in_progress

  unfoldable pub execute_replication_check : List String → Exec (Unit {0})
  execute_replication_check indices = do
    c ← check_indices indices (record { in_progress = []; failed = [] })
    if not (is_empty c.failed)
        then raise (message "some replication indices are failed")
        else await_progress replication_attempts_number c.in_progress
