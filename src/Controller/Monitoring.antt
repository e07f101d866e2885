-- ===== src/Controller/Monitoring.antt =====
-- controllers/monitoring_reconciler.go. The slow log watcher, whose runs are those of SlowLog, is an
-- interface here, and the hash of this part of the resource an argument.
use qubership_opensearch.Prelude.{
  ℕ, ◌⊎◌, String, Bool, not, ◌||◌, ◌==◌, ◌<>◌, is_some, Option, none, some, List, [], ◌∷◌,
  if◌then◌else◌,
}
use qubership_opensearch.Http.{
  Event, stored_hash, World, Error, Credentials, Exec, pure, note, ◌>>=◌, ◌>>◌,
}
use qubership_opensearch.SlowLog.{Params}
use qubership_opensearch.Opensearch.{Kube}
use qubership_opensearch.Opensearch.Secrets.{found}
use qubership_opensearch.Controller.{
  resource_hash, has_changed, add_annotations_to_deployment, secret_hash, secret_hash_if_any,
}
use qubership_opensearch.Controller.Cycle.{Instance, secret_name, parse_opensearch_credentials}

-- SlowLogIndicesWatcher: its state, and `start` and `stop` with the credentials of their client.
pub record SlowLogWatcher : Type 0 where
  pub is_stopped : List Event → Bool
  pub start : Credentials → Params → Exec (Unit {0})
  pub stop : Credentials → Exec (Unit {0})

-- The monitoring in the resource, with its hash.
pub record Monitoring : Type 0 where
  pub name : String
  pub secret_name : String
  pub slow_queries : Option Params
  pub hash : String ⊎ Error

module _ (w : World) (k : Kube) (attempts : ℕ) (watcher : SlowLogWatcher) where
  unfoldable pub start_or_stop : Option Params → Credentials → Exec (Unit {0})
  start_or_stop none c = watcher.stop c
  start_or_stop (some p) c = watcher.start c p

  unfoldable pub update_slow_log : Instance → Option Params → Exec (Unit {0})
  update_slow_log i slow_queries log =
      (if is_some slow_queries || not (watcher.is_stopped log)
          then parse_opensearch_credentials w k attempts i >>= start_or_stop slow_queries
          else pure tt)
        log

  -- Whether the OpenSearch secret or the one with the old credentials has changed.
  unfoldable pub have_credentials_changed : String → String → Exec Bool
  have_credentials_changed opensearch_hash old_hash = do
    stored ← resource_hash "secret.opensearch"
    stored_old ← resource_hash "secret.opensearch.old"
    pure (has_changed stored opensearch_hash || has_changed stored_old old_hash)

  unfoldable pub restart_monitoring : String → String → String → String → Exec (Unit {0})
  restart_monitoring name opensearch_hash old_hash hash = do
    changed ← have_credentials_changed opensearch_hash old_hash
    stored ← resource_hash "secret.monitoring"
    if changed || has_changed stored hash
        then add_annotations_to_deployment w k attempts name (
            ("secret.opensearch", opensearch_hash)
            ∷ ("secret.opensearch.old", old_hash)
            ∷ ("secret.monitoring", hash)
            ∷ [])
        else pure tt

  unfoldable pub monitoring_reconcile : Instance → Monitoring → String → Exec (Unit {0})
  monitoring_reconcile i m opensearch_hash = do
    hash ← secret_hash_if_any w k attempts "secret.monitoring" m.secret_name
    old_hash ← secret_hash w k attempts "secret.opensearch.old" (secret_name i <> "-old")
    restart_monitoring m.name opensearch_hash old_hash hash
    spec_hash ← found w k m.hash
    changed ← have_credentials_changed opensearch_hash old_hash
    stored_spec ← resource_hash "spec.monitoring"
    if changed || not (stored_spec == spec_hash) then update_slow_log i m.slow_queries else pure tt
    note (stored_hash "secret.opensearch.old" old_hash)
    note (stored_hash "secret.monitoring" hash)
    note (stored_hash "spec.monitoring" spec_hash)
