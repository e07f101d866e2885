-- ===== src/Witnesses/Controller.antt =====
-- The controller with reconcilers that do little.
use qubership_opensearch.Prelude.{inl, ◌≡◌, refl, String, true, false, none, some, []}
use qubership_opensearch.Http.{message, pure, raise, call, require_ok, sleep, deferred, ◌>>=◌}
use qubership_opensearch.Http.Trace.{Adds-pure, Adds-raise}
use qubership_opensearch.Opensearch.Secrets.{
  found, find_secret, watch_secret, calculate_secret_data_hash,
}
use qubership_opensearch.Controller.{
  stored_from, resource_hash, secret_hash, curator_reconcile, scale_deployment_for_dr,
}
use qubership_opensearch.Controller.Cycle.{
  Parts, present, build_reconcilers, Instance, reconcile_all, run_cycle, close_cycle, reconcile,
}
use qubership_opensearch.Controller.Cycle.Outcome.{EndsWith, condition_of, reconcile-EndsWith}
use qubership_opensearch.Controller.Cycle.Committed.{reconcile-keeps_hash}
use qubership_opensearch.Controller.Modest.{curator-Adds, scale_for_dr-Adds}
use qubership_opensearch.Witnesses.Opensearch.{kube, healthy}

abbrev instance' : Instance
instance' = record { name = "opensearch"; has_opensearch = true; is_external = false }

-- Two parts, of which the first one fails.
abbrev failing_parts : String → Parts
failing_parts hash = record {
  opensearch = none;
  disaster_recovery = none;
  dashboards = some (record { reconcile = raise (message "no"); configure = pure tt });
  monitoring = none;
  dbaas_adapter = none;
  elasticsearch_dbaas_adapter = none;
  curator = some (record {
    reconcile = curator_reconcile healthy kube 2 "curator" "curator-secret" hash;
    configure = scale_deployment_for_dr healthy kube 2 "curator" none;
  });
  external_opensearch = none;
}

reconcile-EndsWith_example :
    EndsWith
      (condition_of
        (reconcile healthy kube 2
          (inl (some instance'))
          (inl "http://opensearch:9200")
          failing_parts
          []).0)
      (reconcile healthy kube 2
        (inl (some instance'))
        (inl "http://opensearch:9200")
        failing_parts
        []).1
reconcile-EndsWith_example =
    reconcile-EndsWith healthy kube 2 instance' (inl "http://opensearch:9200") failing_parts [] refl

reconcile-keeps_hash_example :
    stored_from "" "secret.opensearch"
      (reconcile healthy kube 2
        (inl (some instance'))
        (inl "http://opensearch:9200")
        failing_parts
        []).1
    ≡ stored_from "" "secret.opensearch" []
unfolding build_reconcilers present reconcile run_cycle close_cycle reconcile_all secret_hash
    resource_hash calculate_secret_data_hash watch_secret find_secret found stored_from call
    require_ok sleep deferred pure raise ◌>>=◌
reconcile-keeps_hash_example =
    reconcile-keeps_hash healthy kube 2 instance' (inl "http://opensearch:9200") failing_parts
      (λ hash. (
        record { reconciles = Adds-raise _; configures = Adds-pure _ },
        (
          record {
            reconciles = curator-Adds healthy kube 2 "curator" "curator-secret" hash;
            configures = scale_for_dr-Adds healthy kube 2 "curator" none;
          },
          tt,
        ),
      ))
      [] (λ same. cc)
