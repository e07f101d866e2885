-- ===== src/Witnesses/Replication.antt =====
-- Runs of controllers/replication_manager.go.
use qubership_opensearch.Prelude.{refl, String, true, none, some, List, [], ◌∷◌}
use qubership_opensearch.Prelude.Int.{pos}
use qubership_opensearch.Json.{
  array, fields, struct, get_field, text_field, int_field, decode_text, decode_int, find,
}
use qubership_opensearch.Http.{
  Method, Request, Outcome, answered, World, Event, sent, request_of, send_request,
  send_basic_request, auth_of, require_ok, unmarshal_to, lift, pure, ◌>>=◌,
}
use qubership_opensearch.Http.Trace.{Adds}
use qubership_opensearch.Replication.Manager.{
  get_index_replication_status, get_replication_index_stats,
}
use qubership_opensearch.Replication.Stats.{
  RuleStats, decode_replication_index_stats, decode_index_details,
}
use qubership_opensearch.Replication.Check.{
  execute_replication_check, check_indices, check_index, collect, match_string, await_progress,
  update_in_progress_indices, update_indices, regex_of,
}
use qubership_opensearch.Replication.Indices.{delete_indices}
use qubership_opensearch.Replication.Deletion.{SparesServices, delete_indices-SparesServices}
use qubership_opensearch.Replication.Progress.{Passed, execute_replication_check-Passed}
use qubership_opensearch.Witnesses.Worlds.{answering, manager, rest_client, syncing, rule, rules}

abbrev steady : World
steady = answering 200 syncing

delete_indices-SparesServices_example :
    Adds (SparesServices manager) (delete_indices steady manager)
delete_indices-SparesServices_example = delete_indices-SparesServices steady manager refl

abbrev some_rule : String → RuleStats
some_rule name = record {
  name = name;
  pattern = "*";
  success_start = pos 1;
  failed_start = pos 0;
  failed_indices = [];
}

abbrev two_rules : List RuleStats
two_rules = some_rule "other" ∷ some_rule "dr-replication" ∷ []

abbrev ruled : World
ruled = answering 200 (rules (rule "dr-replication" [] 1 0 ∷ []))

abbrev check_end : List Event
check_end =
    sent (request_of rest_client Method.get "_plugins/_replication/orders/_status" none true) ∷ []

execute_replication_check-Passed_example : Passed steady manager ("orders" ∷ []) [] check_end
unfolding execute_replication_check check_indices check_index match_string regex_of collect
    await_progress update_in_progress_indices update_indices get_index_replication_status
    get_replication_index_stats send_request send_basic_request auth_of require_ok unmarshal_to lift
    pure ◌>>=◌ decode_replication_index_stats decode_index_details fields struct get_field
    text_field int_field decode_text decode_int find
execute_replication_check-Passed_example =
    execute_replication_check-Passed steady manager ("orders" ∷ []) [] check_end refl

-- The first DELETE is refused, and what comes later succeeds; no index is listed.
abbrev refusing_once : World
refusing_once = record steady { respond = answer }
  where
    answer : List Event → Request → Outcome
    answer [] r = answered 403 (record { text = ""; document = none })
    answer (e ∷ es) r = answered 200 (record { text = "[]"; document = some (array []) })
