-- ===== src/Witnesses/Configure.antt =====
-- Runs of Configure and steps of the watcher.
use qubership_opensearch.Prelude.{
  inl, inr, ◌≡◌, ◌≢◌, refl, String, true, false, Option, none, some, List, [], ◌∷◌, All,
}
use qubership_opensearch.Http.{
  World, Error, transport, Event, Call, disable_service, require_ok, pure, raise, sleep, attempt,
  attempted, call, note, deferred, dial, ◌>>=◌,
}
use qubership_opensearch.DisasterRecovery.Process.{try, error_of, if_no_error}
use qubership_opensearch.DisasterRecovery.Switchover.{
  is_other_side_active, check_connection_with_other_side, switch_to_standby,
}
use qubership_opensearch.DisasterRecovery.Resource.{
  Resource, status_of, is_switch_due, is_hash_changed, final_status, is_replication_check_needed,
  equals_lowered, opening_state,
}
use qubership_opensearch.DisasterRecovery.Configure.{
  configure, body, settle, close_after, close, return_of, switch_over, release, work,
  disable_and_switch, disable_client_services, switch_mode, standby, enable_client_services,
}
use qubership_opensearch.DisasterRecovery.Configure.Defers.{held, configure-unlocks}
use qubership_opensearch.DisasterRecovery.Configure.Outcome.{EndsWith, configure-error_recorded}
use qubership_opensearch.DisasterRecovery.Watcher.{
  top, holding, System, init, Phase, switching, Step, begin, acquire, Reach, here, next, pause,
  start, finish,
}
use qubership_opensearch.DisasterRecovery.Watcher.Invariant.{
  IsOwned, Reach-IsOwned, switching_alone,
}
use qubership_opensearch.DisasterRecovery.Watcher.Leak.{live, watchers_pile_up}
use qubership_opensearch.Witnesses.Worlds.{answering, manager, syncing}

abbrev steady : World
steady = answering 200 syncing

abbrev settled : Resource
settled = record {
  name = "opensearch";
  mode = "standby";
  no_wait = false;
  watcher_enabled = true;
  adapter = none;
  status_mode = "standby";
  status = "done";
  users_recovery_state = "";
  gke_service = "";
  stored_hash = "5d41";
}

-- A switchover to standby that has to be made.
abbrev switching_resource : Resource
switching_resource = record settled { status_mode = "active" }

Reach-IsOwned_example : IsOwned (record (pause init) { phase = Phase.pausing })
unfolding init
Reach-IsOwned_example = Reach-IsOwned (next here (begin refl))

watchers_pile_up_example : (s : System) × Reach s × (s.running ≡ true) × (live s.loops ≡ 3)
watchers_pile_up_example = watchers_pile_up 2

configure-unlocks_example :
    held (configure steady manager switching_resource (inl "other:9200") 24 9 (inl "5d41") []).1
    ≡ false
unfolding configure deferred body settle note close_after close return_of final_status is_switch_due
    is_hash_changed switch_over release work disable_and_switch disable_client_services switch_mode
    standby is_replication_check_needed equals_lowered opening_state enable_client_services call
    switch_to_standby if_no_error check_connection_with_other_side is_other_side_active dial try
    attempt attempted error_of require_ok raise pure sleep ◌>>=◌
configure-unlocks_example =
    configure-unlocks steady manager switching_resource (inl "other:9200") 24 9 (inl "5d41") [] refl
      (λ e. cc e)

-- No service may be disabled.
abbrev forbidding : World
forbidding = record steady { call = answer }
  where
    answer : List Event → Call → Option Error
    answer log (disable_service name) = some (transport "forbidden")
    answer log _ = none

configure-error_recorded_example :
    (state : String) × EndsWith
      (status_of switching_resource "failed" (some (inr (transport "forbidden"))) state)
      (configure forbidding manager switching_resource (inl "other:9200") 24 9 (inl "5d41") []).1
unfolding configure deferred body settle note close_after close return_of final_status is_switch_due
    is_hash_changed switch_over release work disable_and_switch disable_client_services switch_mode
    standby is_replication_check_needed equals_lowered opening_state enable_client_services call
    switch_to_standby if_no_error check_connection_with_other_side is_other_side_active dial try
    attempt attempted error_of require_ok raise pure sleep ◌>>=◌
configure-error_recorded_example =
    configure-error_recorded forbidding manager switching_resource (inl "other:9200") 24 9 "5d41" []
      (configure forbidding manager switching_resource (inl "other:9200") 24 9 (inl "5d41") []).1
      (transport "forbidden") refl

-- A watcher that was started, and then a switchover.
abbrev switched : System
switched = record { running = false; locked = true; phase = switching; loops = top ∷ [] }

reached : Reach switched
unfolding init finish start pause
reached = next (next (next here (Step.configure true refl)) (begin refl)) (acquire refl refl)

switching_alone_example : All (λ p. p ≢ holding) (top ∷ [])
switching_alone_example = switching_alone reached refl
