-- ===== src/Opensearch/Rolling/Allocation.antt =====
-- A rolling update that ends has asked the cluster to allocate all shards again.
use qubership_opensearch.Prelude.{
  ℕ, ◌≡◌, ◌≢◌, ◌∙◌, ap, String, Bool, true, false, leb, not, ◌==◌, Option, none, some, List, [],
  ◌∷◌, ◌++◌, All, leb, if◌then◌else◌,
}
use qubership_opensearch.Json.{Json, null, str, object}
use qubership_opensearch.Http.{
  Method, Request, Event, sent, SetStatus, World, RestClient, request_of, Exec, Result, ok, err,
  panicked, continue, pure, deferred, send_request_with_status_code_check, ◌>>=◌, ◌>>◌,
}
use qubership_opensearch.Http.Trace.{
  Adds, Adds-pure, Adds-raise, Adds-if, Adds-bind, Adds-attempt, Adds-require_ok, Adds-call,
}
use qubership_opensearch.Http.Starts.{Starts, Starts-bind, Starts-attempt, Starts-send_request}
use qubership_opensearch.Http.Poll.{Starts-poll_immediate}
use qubership_opensearch.Opensearch.{StatefulSet, Kube}
use qubership_opensearch.Opensearch.Settings.{
  settings_path, make_opensearch_settings, check_opensearch_health, update_settings,
  change_allocation_setting,
}
use qubership_opensearch.Opensearch.Trace.{
  check_opensearch_health-Adds, get_settings-Adds, update_settings-Adds,
  change_allocation_setting-Adds, exec_flush_procedure-Adds,
}
use qubership_opensearch.Opensearch.Pods.{restart_opensearch_pods}
use qubership_opensearch.Opensearch.Pods.Careful.{restart_opensearch_pods-Moves}
use qubership_opensearch.Opensearch.Rolling.{
  RollingStatus, Attempts, update_rolling_update_status, begin_rolling_update, restart,
  enable_unless_restarted, run_rolling_update,
}

-- The request that lets the cluster allocate all shards, or only the primary ones.
-- `null` gives the setting its default, which is "all".
abbrev pub allocation_request : RestClient → Bool → Request
allocation_request rc enable = request_of rc Method.put "_cluster/settings" (some persistent) true
  where
    value : Json
    value = if enable then null else str "primaries"

    cluster : Json
    cluster =
        object (("routing", object (("allocation", object (("enable", value) ∷ [])) ∷ [])) ∷ [])

    persistent : Json
    persistent = object (("persistent", object (("cluster", cluster) ∷ [])) ∷ [])

abbrev pub IsNotDisabling : RestClient → Event → Type 0
IsNotDisabling rc e = e ≢ sent (allocation_request rc false)

-- Of the events that `end` has more than `log`, one enables the allocation, and none behind it disables it.
pub record Reenabled (rc : RestClient) (log end : List Event) : Type 0 where
  pub before : List Event
  pub after : List Event
  pub same : end ≡ ((log ++ before) ++ sent (allocation_request rc true) ∷ []) ++ after
  pub calm : All (IsNotDisabling rc) after

payload_of : Event → Option Json
payload_of (sent r) = r.payload
payload_of _ = none

abbrev Any : Event → Type 0
Any e = Unit

module _ (w : World) (rc : RestClient) (attempts : ℕ) where
  bare-IsNotDisabling :
      (m : Method) (path : String) → IsNotDisabling rc (sent (request_of rc m path none true))
  unfolding payload_of
  bare-IsNotDisabling m path same = cc (ap payload_of same)

  update-Starts :
      Starts
        (sent (allocation_request rc true))
        (IsNotDisabling rc)
        (update_settings w rc (some (make_opensearch_settings true)))
  unfolding update_settings make_opensearch_settings send_request_with_status_code_check
  update-Starts =
      Starts-bind _ _
        (Starts-bind _ _ (Starts-send_request w rc _ _ _) λ reply.
          Adds-if (leb 400 reply.status_code) _ _ (Adds-raise _)
            (Adds-bind _ _ (Adds-require_ok reply.error) λ _. Adds-pure _))
        λ _. Adds-pure _

  enable-Starts :
      Starts
        (sent (allocation_request rc true))
        (IsNotDisabling rc)
        (change_allocation_setting w rc attempts true)
  unfolding change_allocation_setting make_opensearch_settings
  enable-Starts =
      Starts-bind _ _
        (Starts-poll_immediate attempts _ _
          (Starts-bind _ _ (Starts-attempt _ update-Starts) λ _. Adds-pure _)
          (Adds-bind _ _
            (Adds-attempt _
              (update_settings-Adds w rc none (bare-IsNotDisabling Method.put settings_path)))
            λ _. Adds-pure _))
        λ _.
          Adds-bind _ _ (get_settings-Adds w rc (bare-IsNotDisabling _ settings_path))
            λ _. Adds-pure _

module _ (w : World) (k : Kube) (n : Attempts) (rc : RestClient) where
  begin-Adds : (rs : RollingStatus) → Adds Any (begin_rolling_update w k n rc rs)
  unfolding begin_rolling_update update_rolling_update_status
  begin-Adds rs =
      Adds-if (not (rs.status == "running")) _ _
        (Adds-bind _ _ (change_allocation_setting-Adds w rc n.settings false λ _ _. tt)
          λ _. Adds-bind _ _ (exec_flush_procedure-Adds w rc tt tt) λ _. Adds-call w _ tt)
        (Adds-pure _)

  pods-Adds :
      (sets : List StatefulSet) (ss : List SetStatus)
      → Adds Any (restart_opensearch_pods w k n.pods sets ss)
  pods-Adds sets ss = record {
    at = λ log.
        let (new, same, ends) = (restart_opensearch_pods-Moves w k n.pods sets ss).at log in
        (new, same, all new);
  }
    where
      all : (es : List Event) → All Any es
      all [] = tt
      all (e ∷ es) = (tt, all es)

  restart-Adds :
      (rs : RollingStatus) (sets : List StatefulSet) → Adds Any (restart w k n rc rs sets)
  unfolding restart
  restart-Adds rs sets =
      Adds-bind _ _ (begin-Adds rs) λ _. Adds-bind _ _ (pods-Adds sets rs.sets) λ _. Adds-pure _

  finish-Starts : Starts (sent (allocation_request rc true)) (IsNotDisabling rc) (do
    change_allocation_setting w rc n.settings true
    check_opensearch_health w rc n.health
    update_rolling_update_status w k n "done")
  unfolding update_rolling_update_status
  finish-Starts = Starts-bind _ _ (enable-Starts w rc n.settings) λ _.
      Adds-bind _ _
        (check_opensearch_health-Adds w rc n.health
          (bare-IsNotDisabling w rc n.health _ "_cluster/health"))
        λ _. Adds-call w _ (λ same. cc)

  reenabled :
      (m : Exec (Unit {0})) (log before end : List Event)
      → Starts (sent (allocation_request rc true)) (IsNotDisabling rc) m
      → end ≡ log ++ before
      → Reenabled rc log (m end).1
  reenabled m log before end h same =
      let (after, grown, calm) = h.at end in
      record {
        before = before;
        after = after;
        same = grown ∙ ap (λ l. (l ++ sent (allocation_request rc true) ∷ []) ++ after) same;
        calm = calm;
      }

  -- Whatever Kubernetes and the cluster answer, and on every path, a rolling update asks the cluster to
  -- allocate all shards, and behind that it does not ask it to allocate only the primary ones.
  pub run_rolling_update-Reenabled :
      (rs : RollingStatus) (sets : List StatefulSet) (log : List Event)
      → Reenabled rc log (run_rolling_update w k n rc rs sets log).1
  unfolding run_rolling_update deferred enable_unless_restarted pure ◌>>=◌
  run_rolling_update-Reenabled rs sets log =
      let (before, same, _) = (restart-Adds rs sets).at log in
      go (restart w k n rc rs sets log).0 (restart w k n rc rs sets log).1 before same
    where
      go :
          (r : Result (Unit {0})) (end before : List Event)
          → end ≡ log ++ before
          → Reenabled rc log
              (continue r
                (λ _. do
                  change_allocation_setting w rc n.settings true
                  check_opensearch_health w rc n.health
                  update_rolling_update_status w k n "done")
                (enable_unless_restarted w k n rc r end).1).1
      go (ok done) end before same = reenabled _ log before end finish-Starts same
      go (err e) end before same =
          reenabled _ log before end
            (Starts-bind _ _ (Starts-attempt _ (enable-Starts w rc n.settings)) λ _. Adds-pure tt)
            same
      go (panicked text) end before same =
          reenabled _ log before end
            (Starts-bind _ _ (Starts-attempt _ (enable-Starts w rc n.settings)) λ _. Adds-pure tt)
            same
