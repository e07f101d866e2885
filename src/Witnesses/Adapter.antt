-- ===== src/Witnesses/Adapter.antt =====
-- Runs of the DBaaS adapter, and of the conditions.
use qubership_opensearch.Prelude.{ℕ, ◌⊎◌, inl, ◌≡◌, ◌≢◌, refl, String, List, [], ◌∷◌, map, Dict}
use qubership_opensearch.Json.{object}
use qubership_opensearch.Http.{
  World, Error, ok, Event, pure, raise, attempt, attempted, sleep, ◌>>=◌,
}
use qubership_opensearch.Http.Yields.{Yields}
use qubership_opensearch.DisasterRecovery.Process.{try, error_of}
use qubership_opensearch.Adapter.Transport.{perform}
use qubership_opensearch.Adapter.Users.{ConnectionProperties, patch_users, patched_of}
use qubership_opensearch.Adapter.Recovery.{
  RecoveryState, done, change_of, attempt_batch, recover_from, recovery,
}
use qubership_opensearch.Adapter.Recovery.Batches.{Sent, recovery-Sent, recovery-ends}
use qubership_opensearch.Adapter.Backup.Curator.{Curator}
use qubership_opensearch.Adapter.Backup.Snapshot.{
  Shard, is_from, is_done, track_shards, track_info, restore_status,
}
use qubership_opensearch.Adapter.Backup.Verified.{SomeIndex, AllRestored, restore_status-success}
use qubership_opensearch.Adapter.Backup.Renaming.{Database}
use qubership_opensearch.Conditions.{StatusCondition, add_condition}
use qubership_opensearch.Conditions.Reasons.{SaysSame, find_condition, add_condition-find}
use qubership_opensearch.Witnesses.Worlds.{answering, failing}

abbrev user : String → ConnectionProperties
user name = record {
  db_name = "orders";
  username = name;
  password = "secret";
  resource_prefix = "orders";
  role = "";
}

abbrev accepting : World
accepting = answering 200 (object [])

abbrev recovered : List Event
recovered = (recovery accepting (user "a" ∷ user "b" ∷ []) []).1

recovery-Sent_example : Sent accepting (map change_of (user "a" ∷ user "b" ∷ [])) [] recovered
unfolding recovery recover_from attempt_batch patch_users patched_of perform try error_of attempt
    attempted pure raise sleep ◌>>=◌
recovery-Sent_example = recovery-Sent accepting (user "a" ∷ user "b" ∷ []) [] recovered refl

recovery-ends_example :
    ((recovery failing (user "a" ∷ []) []).0 ≡ ok done)
    ⊎ ((recovery failing (user "a" ∷ []) []).0 ≡ ok RecoveryState.failed)
recovery-ends_example = recovery-ends failing (user "a" ∷ []) []

abbrev one_index : Dict (List Shard)
one_index =
    ("orders", record { stage = "DONE"; snapshot = "b1"; repository = "snapshots" } ∷ []) ∷ []

restore_status-success_example :
    (info : Dict (List Shard)) × (◌≡◌ {A = Dict (List Shard) ⊎ Error} (inl one_index) (inl info))
    × SomeIndex "b1" "snapshots" info
    × AllRestored "b1" "snapshots" info
unfolding restore_status track_info track_shards is_from is_done
restore_status-success_example = restore_status-success "b1" "snapshots" (inl one_index) refl

abbrev curator : Curator
curator = record { url = "http://curator:8080"; username = "u"; password = "p" }

abbrev prepare : List Event → String → String → ℕ → String ⊎ Error
prepare log namespace microservice limit = inl "generated"

abbrev orders : Database
orders = record { namespace = "ns"; microservice = "ms"; name = "orders"; prefix = "shop" }

abbrev condition : String → String → StatusCondition
condition reason kind = record {
  kind = kind;
  status = "True";
  last_transition_time = "now";
  reason = reason;
  message = "";
}

abbrev current : List StatusCondition
current = condition "Dashboards" "Successful" ∷ condition "OpenSearch" "In progress" ∷ []

add_condition-find_example :
    SaysSame
      (find_condition "OpenSearch" (add_condition current (condition "OpenSearch" "Failed")))
      (condition "OpenSearch" "Failed")
    × (◌≢◌ {A = String} "Dashboards" "OpenSearch"
        → find_condition "Dashboards" (add_condition current (condition "OpenSearch" "Failed"))
          ≡ find_condition "Dashboards" current)
add_condition-find_example =
    add_condition-find "Dashboards" current (condition "OpenSearch" "Failed")
