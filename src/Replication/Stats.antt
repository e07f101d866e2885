-- ===== src/Replication/Stats.antt =====
-- The types that replication_manager.go decodes responses into.
use qubership_opensearch.Prelude.{String, Option, none, some, List, [], Dict}
use qubership_opensearch.Prelude.Int.{ℤ}
use qubership_opensearch.Json.{
  Json, Fields, struct, get_field, text_field, int_field, decode_text, decode_list, decode_map,
  decode_unit, fields,
}

infixl 5 ◌>>=◌
abbrev ◌>>=◌ {ℓ κ} : {A : Type ℓ} {B : Type κ} → Option A → (A → Option B) → Option B
none >>= f = none
some a >>= f = f a

pub record ReplicationStats : Type 0 where
  pub syncing_indices_count : ℤ
  pub bootstrapping_indices_count : ℤ
  pub paused_indices_count : ℤ
  pub failed_indices_count : ℤ
  pub index_stats : Dict (Unit {0})

unfoldable pub decode_replication_stats : Json → Option ReplicationStats
decode_replication_stats v = do
  fs ← fields v
  syncing ← int_field "num_syncing_indices" fs
  bootstrapping ← int_field "num_bootstrapping_indices" fs
  paused ← int_field "num_paused_indices" fs
  failing ← int_field "num_failed_indices" fs
  indices ← get_field (decode_map decode_unit) [] "index_stats" fs
  some (record {
    syncing_indices_count = syncing;
    bootstrapping_indices_count = bootstrapping;
    paused_indices_count = paused;
    failed_indices_count = failing;
    index_stats = indices;
  })

pub record InnerTask : Type 0 where
  pub action : String

pub record TasksInfo : Type 0 where
  pub tasks : Dict InnerTask

pub record NodesInfo : Type 0 where
  pub nodes : Dict TasksInfo

unfoldable pub decode_inner_task : Fields → Option InnerTask
decode_inner_task fs = do action ← text_field "action" fs; some (record { action = action })

unfoldable pub decode_tasks_info : Fields → Option TasksInfo
decode_tasks_info fs = do
  tasks ← get_field (decode_map (struct decode_inner_task)) [] "tasks" fs
  some (record { tasks = tasks })

unfoldable pub decode_nodes_info : Json → Option NodesInfo
decode_nodes_info v = do
  fs ← fields v
  nodes ← get_field (decode_map (struct decode_tasks_info)) [] "nodes" fs
  some (record { nodes = nodes })

pub record RuleStats : Type 0 where
  pub name : String
  pub pattern : String
  pub success_start : ℤ
  pub failed_start : ℤ
  pub failed_indices : List String

unfoldable pub decode_rule_stats : Fields → Option RuleStats
decode_rule_stats fs = do
  name ← text_field "name" fs
  pattern' ← text_field "pattern" fs
  success ← int_field "num_success_start_replication" fs
  failed ← int_field "num_failed_start_replication" fs
  indices ← get_field (decode_list decode_text) [] "failed_indices" fs
  some (record {
    name = name;
    pattern = pattern';
    success_start = success;
    failed_start = failed;
    failed_indices = indices;
  })

pub record AutofollowStats : Type 0 where
  pub success_start : ℤ
  pub failed_start : ℤ
  pub autofollow_rule_stats : List RuleStats

unfoldable pub decode_autofollow_stats : Json → Option AutofollowStats
decode_autofollow_stats v = do
  fs ← fields v
  success ← int_field "num_success_start_replication" fs
  failed ← int_field "num_failed_start_replication" fs
  rules ← get_field (decode_list (struct decode_rule_stats)) [] "autofollow_stats" fs
  some (record { success_start = success; failed_start = failed; autofollow_rule_stats = rules })

pub record IndexDetails : Type 0 where
  pub leader_checkpoint : ℤ
  pub follower_checkpoint : ℤ
  pub seq : ℤ

unfoldable pub decode_index_details : Fields → Option IndexDetails
decode_index_details fs = do
  leader ← int_field "leader_checkpoint" fs
  follower ← int_field "follower_checkpoint" fs
  seq ← int_field "seq_no" fs
  some (record { leader_checkpoint = leader; follower_checkpoint = follower; seq = seq })

pub record ReplicationIndexStats : Type 0 where
  pub status : String
  pub reason : String
  pub details : IndexDetails

-- The zero value of the nested struct is what the empty document decodes to.
abbrev no_details : IndexDetails
no_details = record { leader_checkpoint = ℤ.pos 0; follower_checkpoint = ℤ.pos 0; seq = ℤ.pos 0 }

unfoldable pub decode_replication_index_stats : Json → Option ReplicationIndexStats
decode_replication_index_stats v = do
  fs ← fields v
  status ← text_field "status" fs
  reason ← text_field "reason" fs
  details ← get_field (struct decode_index_details) no_details "syncing_details" fs
  some (record { status = status; reason = reason; details = details })

pub record Cause : Type 0 where
  pub kind : String
  pub reason : String

-- `type` is a word of the language: the field `Type` is `kind` here.
pub record PluginReplicationError : Type 0 where
  pub reason : String
  pub kind : String
  pub caused_by : Cause
  pub status : ℤ

unfoldable pub decode_cause : Fields → Option Cause
decode_cause fs = do
  kind ← text_field "type" fs
  reason ← text_field "reason" fs
  some (record { kind = kind; reason = reason })

abbrev no_cause : Cause
no_cause = record { kind = ""; reason = "" }

unfoldable pub decode_error_part : Fields → Option (String × String × Cause)
decode_error_part fs = do
  reason ← text_field "reason" fs
  kind ← text_field "type" fs
  cause ← get_field (struct decode_cause) no_cause "caused_by" fs
  some (reason, kind, cause)

unfoldable pub decode_plugin_replication_error : Json → Option PluginReplicationError
decode_plugin_replication_error v = do
  fs ← fields v
  (reason, kind, cause) ← get_field (struct decode_error_part) ("", "", no_cause) "error" fs
  status ← int_field "status" fs
  some (record { reason = reason; kind = kind; caused_by = cause; status = status })
