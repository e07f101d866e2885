-- ===== src/Opensearch/Rolling.antt =====
-- The rolling update in controllers/opensearch_reconciler.go.
pub mod Allocation
use qubership_opensearch.Prelude.{
  ℕ, ◌⊎◌, inl, inr, String, Bool, true, false, not, ◌==◌, eqb, any, split, Option, none, some, List,
  [], ◌∷◌, is_empty, if◌then◌else◌,
}
use qubership_opensearch.Http.{
  Event, SetStatus, World, Error, RestClient, Exec, Result, ok, err, panicked, pure, raise, attempt,
  call, require_ok, deferred, update_stateful_set, set_rolling_update_status, ◌>>=◌, ◌>>◌,
}
use qubership_opensearch.Opensearch.{StatefulSet, Kube}
use qubership_opensearch.Opensearch.Settings.{
  check_opensearch_health, change_allocation_setting, enable_allocation_if_necessary,
  exec_flush_procedure,
}
use qubership_opensearch.Opensearch.Pods.{restart_opensearch_pods}

-- The rolling update in the status of the resource.
pub record RollingStatus : Type 0 where
  pub status : String
  pub sets : List SetStatus

-- The numbers of the attempts that the time of a poll is enough for.
pub record Attempts : Type 0 where
  pub health : ℕ
  pub settings : ℕ
  pub pods : ℕ

module _ (w : World) (k : Kube) (n : Attempts) where
  unfoldable pub own_stateful_set : String → Exec (Unit {0})
  own_stateful_set name log = require_ok (k.own log name) log

  unfoldable pub found_set : String → StatefulSet ⊎ Error → Exec StatefulSet
  found_set name (inr e) = raise e
  found_set name (inl set) = do own_stateful_set name; call w (update_stateful_set name); pure set

  unfoldable pub watch_stateful_set : String → Exec StatefulSet
  watch_stateful_set name log = found_set name (k.find_stateful_set log name) log

  unfoldable pub watch_each : List String → Exec (List StatefulSet)
  watch_each [] = pure []
  watch_each (name ∷ names) = do
    set ← watch_stateful_set name
    sets ← watch_each names
    pure (set ∷ sets)

  unfoldable pub get_stateful_sets : String → Exec (List StatefulSet)
  get_stateful_sets names = if names == "" then pure [] else watch_each (split b',' names)

  unfoldable pub update_rolling_update_status : String → Exec (Unit {0})
  update_rolling_update_status status = call w (set_rolling_update_status status)

  module _ (rc : RestClient) where
    unfoldable pub need_to_perform_rolling_update : RollingStatus → List StatefulSet → Exec Bool
    need_to_perform_rolling_update rs sets =
        if any (λ set. not set.on_delete) sets
        then pure false
        else if rs.status == "running"
        then pure true
        else if not (any (λ set. not (eqb set.replicas set.updated_replicas)) sets)
        then pure false
        else (do check_opensearch_health w rc n.health; pure true)

    unfoldable pub begin_rolling_update : RollingStatus → Exec (Unit {0})
    begin_rolling_update rs =
        if not (rs.status == "running")
        then (do
          change_allocation_setting w rc n.settings false
          exec_flush_procedure w rc
          update_rolling_update_status "running")
        else pure tt

    unfoldable pub restart : RollingStatus → List StatefulSet → Exec (Unit {0})
    restart rs sets = do
      begin_rolling_update rs
      restarted ← restart_opensearch_pods w k n.pods sets rs.sets
      pure tt

    -- The deferred function: it does nothing where the pods have been restarted.
    unfoldable pub enable_unless_restarted : Result (Unit {0}) → Exec (Unit {0})
    enable_unless_restarted (ok done) = pure tt
    enable_unless_restarted (err e) = do
      r ← attempt (change_allocation_setting w rc n.settings true)
      pure tt
    enable_unless_restarted (panicked text) = do
      r ← attempt (change_allocation_setting w rc n.settings true)
      pure tt

    -- What is deferred runs where the pods could not be restarted, and then nothing else does.
    unfoldable pub run_rolling_update : RollingStatus → List StatefulSet → Exec (Unit {0})
    run_rolling_update rs sets = do
      deferred (restart rs sets) enable_unless_restarted
      change_allocation_setting w rc n.settings true
      check_opensearch_health w rc n.health
      update_rolling_update_status "done"

    unfoldable pub perform_if_needed : RollingStatus → List StatefulSet → Bool → Exec (Unit {0})
    perform_if_needed rs sets true = run_rolling_update rs sets
    perform_if_needed rs sets false = do
      update_rolling_update_status "done"
      enable_allocation_if_necessary w rc n.settings

  -- Reconcile. The client is made with the old credentials before the sets are read.
  unfoldable pub reconcile : Bool → RestClient ⊎ Error → String → RollingStatus → Exec (Unit {0})
  reconcile false client names rs = pure tt
  reconcile true (inr e) names rs = raise e
  reconcile true (inl rc) names rs = do
    sets ← get_stateful_sets names
    if is_empty sets then pure tt else (do
      perform ← need_to_perform_rolling_update rc rs sets
      perform_if_needed rc rs sets perform)
