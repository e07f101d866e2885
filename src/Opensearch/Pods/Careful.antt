-- ===== src/Opensearch/Pods/Careful.antt =====
-- One pod at a time: the order of the restarts.
use qubership_opensearch.Prelude.{
  ℕ, zero, suc, ◌⊎◌, inl, inr, ◌≡◌, refl, String, Bool, true, false, not, ◌&&◌, ◌==◌, eq_iff, eqb,
  Option, none, some, List, [], ◌∷◌, ◌++◌, if◌then◌else◌, arith,
}
use qubership_opensearch.Http.{
  Event, called, looked_at, SetStatus, World, Error, call, require_ok, note, delete_pod, pure,
  ◌>>=◌, ◌>>◌,
}
use qubership_opensearch.Http.Trace.{Adds, Adds-call}
use qubership_opensearch.Http.Automaton.{
  run, IsIdle, Moves, Moves-pure, Moves-raise, Moves-if, Moves-idle, Moves-bind, Ends,
}
use qubership_opensearch.Http.Poll.{Moves-poll_immediate}
use qubership_opensearch.Opensearch.{StatefulSet, Kube}
use qubership_opensearch.Opensearch.Pods.{
  array_contains, find_status, ready_of, update_stateful_set_statuses, find_stateful_set_status,
  get_updated_replicas_slice, deletion_of, delete_pod_by_name, check_pod,
  wait_until_opensearch_pod_is_ready, restart_from, restart_opensearch_pod, clear_replicas,
  restart_opensearch_pods,
}

-- The pod that was deleted and has not been seen ready since, if there is one.
abbrev pub Missing : Type 0
Missing = Option (String × ℕ)

-- No pod may be deleted while one is missing.
abbrev pub step : Event → Missing → Option Missing
step (called (delete_pod set n)) none = some (some (set, n))
step (called (delete_pod set n)) (some p) = none
step (looked_at set n true) (some (other, m)) =
    if set == other && eqb n m then some none else some (some (other, m))
step _ p = some p

module _ (w : World) (k : Kube) where
  update-IsIdle : (ss : List SetStatus) → Adds (IsIdle step) (update_stateful_set_statuses w k ss)
  unfolding update_stateful_set_statuses
  update-IsIdle ss = Adds-call w _ (λ s. elim s [ none ↦ refl | some p ↦ refl ])

  update-Moves :
      (p : Missing) (ss : List SetStatus)
      → Moves step p (λ _. p) (update_stateful_set_statuses w k ss)
  update-Moves p ss = Moves-idle step p _ (update-IsIdle ss)

  find-Moves :
      (set : StatefulSet) (ss : List SetStatus)
      → Moves step none (λ _. none) (find_stateful_set_status w k set ss)
  unfolding find_stateful_set_status
  find-Moves set ss = go (find_status set.name ss)
    where
      go :
          (o : Option SetStatus)
          → Moves step none
              (λ _. none)
              (elim o [
                | some s ↦ pure ss
                | none ↦ (do
                  let new =
                      ss
                      ++ record {
                        name = set.name;
                        last_generation = set.generation;
                        updated_replicas = [];
                      }
                        ∷ []
                  update_stateful_set_statuses w k new
                  pure new)
              ])
      go none = Moves-bind step _ _ (update-Moves none _) λ _. Moves-pure step _
      go (some s) = Moves-pure step _

  slice-Moves :
      (set : StatefulSet) (ss : List SetStatus)
      → Moves step none (λ _. none) (get_updated_replicas_slice w k set ss)
  unfolding get_updated_replicas_slice
  slice-Moves set ss =
      Moves-if step _ _ _ (Moves-bind step _ _ (update-Moves none _) λ _. Moves-pure step _)
        (Moves-pure step _)

  clear-Moves :
      (attempts : ℕ) (name : String) (ss : List SetStatus)
      → Moves step none (λ _. none) (clear_replicas w k attempts name ss)
  unfolding clear_replicas
  clear-Moves attempts name ss =
      Moves-if step _ _ _ (Moves-pure step _)
        (Moves-bind step _ _ (update-Moves none _) λ _. Moves-pure step _)

  deletion-Moves :
      (set : String) (n : ℕ) (found : List Bool ⊎ Error)
      → Moves step none (λ _. some (set, n)) (deletion_of w k set n found)
  unfolding deletion_of call require_ok
  deletion-Moves set n (inr e) = Moves-raise step none e
  deletion-Moves set n (inl containers) = record {
    at = λ log. go log (w.call log (delete_pod set n));
  }
    where
      go :
          (log : List Event) (o : Option Error)
          → (new : List Event) × ((require_ok o (log ++ called (delete_pod set n) ∷ [])).1
              ≡ log ++ new)
            × Ends step
                (λ _. some (set, n))
                (require_ok o (log ++ called (delete_pod set n) ∷ [])).0
                (run step none new)
      go log none = (called (delete_pod set n) ∷ [], refl, refl)
      go log (some e) = (called (delete_pod set n) ∷ [], refl, (some (set, n), refl))

  delete-Moves :
      (set : String) (n : ℕ) → Moves step none (λ _. some (set, n)) (delete_pod_by_name w k set n)
  unfolding delete_pod_by_name
  delete-Moves set n = record { at = λ log. (deletion-Moves set n (k.find_pod log set n)).at log }

  abbrev seen : String → ℕ → Bool → Missing
  seen set n ready = if ready then none else some (set, n)

  seen-step :
      (set : String) (n : ℕ) (ready : Bool)
      → step (looked_at set n ready) (some (set, n)) ≡ some (seen set n ready)
  seen-step set n true = ground (arith, eq_iff set set)
  seen-step set n false = refl

  check-Moves :
      (set : String) (n : ℕ) → Moves step (some (set, n)) (seen set n) (check_pod w k set n)
  unfolding check_pod note pure ◌>>=◌
  check-Moves set n = record {
    at = λ log. (looked_at set n (ready_of (k.find_pod log set n)) ∷ [], refl, seen-step set n _);
  }

  wait-Moves :
      (attempts : ℕ) (set : String) (n : ℕ)
      → Moves step
          (some (set, n))
          (λ _. none)
          (wait_until_opensearch_pod_is_ready w k attempts set n)
  unfolding wait_until_opensearch_pod_is_ready
  wait-Moves attempts set n = Moves-poll_immediate step attempts _ none λ _. check-Moves set n

  module _ (attempts : ℕ) where
    restart-Moves :
        (set : String) (n : ℕ) (updated : List ℕ) (ss : List SetStatus)
        → Moves step none (λ _. none) (restart_from w k attempts set n updated ss)
    unfolding restart_from
    restart-Moves set zero updated ss = Moves-pure step _
    restart-Moves set (suc n) updated ss =
        Moves-if step (array_contains updated n) _ _ (restart-Moves set n updated ss) (
          Moves-bind step _ _ (delete-Moves set n) λ _.
            Moves-bind step _ _ (wait-Moves attempts set n)
              λ _. Moves-bind step _ _ (update-Moves none _) λ _. restart-Moves set n _ _)

    pod-Moves :
        (set : StatefulSet) (ss : List SetStatus)
        → Moves step none (λ _. none) (restart_opensearch_pod w k attempts set ss)
    unfolding restart_opensearch_pod
    pod-Moves set ss =
        Moves-bind step _ _ (slice-Moves set ss)
          λ current. restart-Moves set.name set.replicas _ current

    -- In a restart of the pods of all sets a pod is deleted only when every pod that was deleted before has
    -- been seen ready, and where the restart returns no error, none is missing in the end.
    pub restart_opensearch_pods-Moves :
        (sets : List StatefulSet) (ss : List SetStatus)
        → Moves step none (λ _. none) (restart_opensearch_pods w k attempts sets ss)
    unfolding restart_opensearch_pods
    restart_opensearch_pods-Moves [] ss = Moves-pure step _
    restart_opensearch_pods-Moves (set ∷ sets) ss = Moves-bind step _ _ (find-Moves set ss) λ known.
        Moves-bind step _ _
          (Moves-if step (not (eqb set.replicas set.updated_replicas)) _ _ (pod-Moves set known)
            (Moves-pure step _))
          λ restarted.
            Moves-bind step _ _ (clear-Moves attempts set.name restarted)
              λ cleared. restart_opensearch_pods-Moves sets cleared
