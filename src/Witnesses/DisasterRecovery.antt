-- ===== src/Witnesses/DisasterRecovery.antt =====
-- Runs of the disaster recovery.
use qubership_opensearch.Prelude.{inl, ◌≡◌, refl, true, false, none, some, List, [], ◌∷◌}
use qubership_opensearch.Prelude.Int.{pos}
use qubership_opensearch.Json.{
  fields, struct, get_field, text_field, int_field, decode_text, decode_int, decode_list,
  decode_map, decode_any, decode_unit, find,
}
use qubership_opensearch.Http.{
  Event, answered, World, message, ok, send_request, send_basic_request,
  send_request_with_status_code_check, auth_of, require_ok, ensure, unmarshal_to, lift, pure, raise,
  sleep, attempt, attempted, get_array_data, filter_rows, item_of, ◌>>=◌,
}
use qubership_opensearch.Http.Trace.{Adds}
use qubership_opensearch.Replication.Stats.{
  RuleStats, decode_autofollow_stats, decode_rule_stats, decode_replication_index_stats,
  decode_index_details, decode_replication_stats,
}
use qubership_opensearch.Replication.Manager.{
  get_replicated_indices, get_auto_follow_rule_stats, find_rule, get_index_replication_status,
  get_replication_index_stats,
}
use qubership_opensearch.Replication.Indices.{get_indices_by_pattern_exclude_service}
use qubership_opensearch.Replication.Check
use qubership_opensearch.Replication.Check.{
  execute_replication_check, check_index, match_string, regex_of, collect, await_progress,
  update_in_progress_indices, update_indices,
}
use qubership_opensearch.DisasterRecovery.Checker
use qubership_opensearch.DisasterRecovery.Checker.{
  Health, up, down, check_indices, check_rules, check_replication, check_rule, rule_verdict,
  list_unhealthy_indices, must_compile, red_indices, are_failed_replications_found, find_failed,
  decode_index_replication_status, decode_index,
}
use qubership_opensearch.DisasterRecovery.Verdict.{SeenUp, check_replication-up}
use qubership_opensearch.DisasterRecovery.Restart
use qubership_opensearch.DisasterRecovery.Restart.Failures.{Seen, check_replication-Seen}
use qubership_opensearch.DisasterRecovery.Process.{try, error_of}
use qubership_opensearch.DisasterRecovery.Switchover.{
  Switched, is_other_side_active, check_connection_with_other_side, switch_to_standby,
  check_before_stop, check_behind, index_names,
}
use qubership_opensearch.DisasterRecovery.Switchover
use qubership_opensearch.DisasterRecovery.Switchover.Removal.{IsHarmless}
use qubership_opensearch.DisasterRecovery.Switchover.Caution.{switch_to_standby-IsHarmless}
use qubership_opensearch.DisasterRecovery.Switchover.Activation.{Checked, check_before_stop-Checked}
use qubership_opensearch.DisasterRecovery.Recovery.{DbaasAdapter}
use qubership_opensearch.Witnesses.Worlds.{
  world_of, answering, manager, rest_client, syncing, healthy,
}

abbrev steady : World
steady = answering 200 syncing

switch_to_standby-IsHarmless_example :
    Adds (IsHarmless manager) (switch_to_standby steady manager "disable" (inl "other:9200") 24)
unfolding is_other_side_active
switch_to_standby-IsHarmless_example =
    switch_to_standby-IsHarmless steady manager (λ log url. refl) "disable" (inl "other:9200") 24

abbrev refused : Switched
refused = record {
  error = some (message "there is active replication on the other side");
  need_return = false;
}

abbrev activation_end : List Event
activation_end = (check_before_stop healthy manager true []).1

check_before_stop-Checked_example :
    ((Restart.check_replication healthy manager true []).0 ≡ ok tt)
    × (true ≡ true → Checked healthy manager [] activation_end)
    × (true ≡ false → (Restart.check_replication healthy manager true []).1 ≡ activation_end)
unfolding check_before_stop check_behind Switchover.check_indices index_names try error_of
    get_replicated_indices decode_replication_stats decode_unit execute_replication_check
    Check.check_indices check_index match_string regex_of collect await_progress
    update_in_progress_indices update_indices Restart.check_replication Restart.check_rule
    Restart.check_found Restart.check_listed Restart.failed_replications Restart.is_failed
    get_auto_follow_rule_stats find_rule decode_autofollow_stats decode_rule_stats
    get_indices_by_pattern_exclude_service get_index_replication_status get_replication_index_stats
    decode_replication_index_stats decode_index_details send_request send_basic_request auth_of
    require_ok ensure unmarshal_to lift pure raise sleep attempt attempted ◌>>=◌ fields struct
    get_field text_field int_field decode_text decode_int decode_list decode_map find get_array_data
    filter_rows item_of
check_before_stop-Checked_example =
    check_before_stop-Checked healthy manager true [] activation_end refl

check_replication-Seen_example : Seen healthy manager []
unfolding Restart.check_replication Restart.check_rule Restart.check_found Restart.check_listed
    Restart.failed_replications Restart.is_failed get_auto_follow_rule_stats find_rule
    decode_autofollow_stats decode_rule_stats get_indices_by_pattern_exclude_service
    get_index_replication_status get_replication_index_stats decode_replication_index_stats
    decode_index_details send_request send_basic_request auth_of require_ok ensure unmarshal_to lift
    pure raise sleep attempt attempted ◌>>=◌ fields struct get_field text_field int_field
    decode_text decode_int decode_list decode_map find get_array_data filter_rows item_of
check_replication-Seen_example =
    check_replication-Seen healthy manager [] (Restart.check_replication healthy manager false []).1
      refl

check_replication-up_example : SeenUp healthy rest_client []
unfolding check_replication check_rules check_rule rule_verdict check_indices list_unhealthy_indices
    must_compile red_indices are_failed_replications_found find_failed
    Checker.get_index_replication_status decode_index_replication_status decode_index
    send_request_with_status_code_check decode_any decode_autofollow_stats decode_rule_stats
    regex_of send_request send_basic_request auth_of require_ok ensure unmarshal_to lift pure raise
    sleep attempt attempted ◌>>=◌ fields struct get_field text_field int_field decode_text
    decode_int decode_list decode_map find get_array_data filter_rows item_of
check_replication-up_example =
    check_replication-up healthy rest_client [] (check_replication healthy rest_client []).1 refl

abbrev other_rule : RuleStats
other_rule = record {
  name = "logs";
  pattern = "*";
  success_start = pos 1;
  failed_start = pos 0;
  failed_indices = [];
}

abbrev broken_rule : RuleStats
broken_rule = record {
  name = "dr-replication";
  pattern = "*";
  success_start = pos 0;
  failed_start = pos 2;
  failed_indices = "orders" ∷ [];
}

abbrev adapter : DbaasAdapter
adapter = record {
  name = "dbaas-opensearch-adapter";
  physical_database_identifier = "default";
  aggregator = rest_client;
  adapter = rest_client;
}

-- The aggregator accepts the request, and the adapter says that it is done.
abbrev recovered : World
recovered = world_of (λ r. answered 200 (record { text = "done"; document = none }))
