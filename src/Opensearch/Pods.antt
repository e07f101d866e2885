-- ===== src/Opensearch/Pods.antt =====
-- The restart of the OpenSearch pods in controllers/opensearch_reconciler.go, with the functions of
-- controllers/opensearchservice_reconciler.go that it calls.
pub mod Careful
pub mod Resume
use qubership_opensearch.Prelude.{
  ℕ, zero, suc, ◌⊎◌, inl, inr, String, Bool, true, false, not, ◌==◌, eqb, any, Option, none, some,
  List, [], ◌∷◌, ◌++◌, is_empty, if◌then◌else◌,
}
use qubership_opensearch.Http.{
  Event, looked_at, SetStatus, World, Error, Exec, pure, raise, note, call, delete_pod,
  set_stateful_set_statuses, ◌>>=◌, ◌>>◌,
}
use qubership_opensearch.Http.Poll.{poll_immediate}
use qubership_opensearch.Opensearch.{StatefulSet, Kube}

-- util.ArrayContains
unfoldable pub array_contains : List ℕ → ℕ → Bool
array_contains slice n = any (λ m. eqb m n) slice

unfoldable pub find_status : String → List SetStatus → Option SetStatus
find_status name [] = none
find_status name (s ∷ ss) =
    let rest = find_status name ss in if s.name == name then some s else rest

-- A change through the pointer that findStatefulSetStatus returns, which is to the first of that name.
unfoldable pub at_status : String → (SetStatus → SetStatus) → List SetStatus → List SetStatus
at_status name f [] = []
at_status name f (s ∷ ss) =
    let rest = at_status name f ss in if s.name == name then f s ∷ ss else s ∷ rest

abbrev pub with_replicas : List ℕ → SetStatus → SetStatus
with_replicas replicas s = record s { updated_replicas = replicas }

abbrev pub updated_of : String → List SetStatus → List ℕ
updated_of name ss = elim (find_status name ss) [ none ↦ [] | some s ↦ s.updated_replicas ]

unfoldable pub ready_of : List Bool ⊎ Error → Bool
ready_of (inr e) = false
ready_of (inl []) = false
ready_of (inl (ready ∷ others)) = ready

module _ (w : World) (k : Kube) where
  unfoldable pub update_stateful_set_statuses : List SetStatus → Exec (Unit {0})
  update_stateful_set_statuses ss = call w (set_stateful_set_statuses ss)

  unfoldable pub find_stateful_set_status : StatefulSet → List SetStatus → Exec (List SetStatus)
  find_stateful_set_status set ss = elim (find_status set.name ss) [
    | some s ↦ pure ss
    | none ↦ (do
      let new =
          ss
          ++ record { name = set.name; last_generation = set.generation; updated_replicas = [] }
            ∷ []
      update_stateful_set_statuses new
      pure new)
  ]

  abbrev pub forgotten : StatefulSet → SetStatus → SetStatus
  forgotten set s = record s { last_generation = set.generation; updated_replicas = [] }

  abbrev pub generation_of : String → List SetStatus → ℕ
  generation_of name ss = elim (find_status name ss) [ none ↦ 0 | some s ↦ s.last_generation ]

  unfoldable pub get_updated_replicas_slice : StatefulSet → List SetStatus → Exec (List SetStatus)
  get_updated_replicas_slice set ss =
      if not (eqb set.generation (generation_of set.name ss))
      then (do
        let new = at_status set.name (forgotten set) ss
        update_stateful_set_statuses new
        pure new)
      else pure ss

  unfoldable pub deletion_of : String → ℕ → List Bool ⊎ Error → Exec (Unit {0})
  deletion_of set replica (inr e) = raise e
  deletion_of set replica (inl containers) = call w (delete_pod set replica)

  unfoldable pub delete_pod_by_name : String → ℕ → Exec (Unit {0})
  delete_pod_by_name set replica log = deletion_of set replica (k.find_pod log set replica) log

  unfoldable pub check_pod : String → ℕ → Exec Bool
  check_pod set replica log =
      let ready = ready_of (k.find_pod log set replica) in
      (do note (looked_at set replica ready); pure ready) log

  module _ (attempts : ℕ) where
    unfoldable pub wait_until_opensearch_pod_is_ready : String → ℕ → Exec (Unit {0})
    wait_until_opensearch_pod_is_ready set replica =
        poll_immediate attempts (λ _. check_pod set replica) none

    -- The pods with an ordinal below the first number, the highest first.
    unfoldable pub restart_from : String → ℕ → List ℕ → List SetStatus → Exec (List SetStatus)
    restart_from set zero updated ss = pure ss
    restart_from set (suc replica) updated ss =
        if array_contains updated replica then restart_from set replica updated ss else (do
          delete_pod_by_name set replica
          wait_until_opensearch_pod_is_ready set replica
          let updated' = updated ++ replica ∷ []
          let new = at_status set (with_replicas updated') ss
          update_stateful_set_statuses new
          restart_from set replica updated' new)

    unfoldable pub restart_opensearch_pod : StatefulSet → List SetStatus → Exec (List SetStatus)
    restart_opensearch_pod set ss = do
      current ← get_updated_replicas_slice set ss
      restart_from set.name set.replicas (updated_of set.name current) current

    unfoldable pub clear_replicas : String → List SetStatus → Exec (List SetStatus)
    clear_replicas name ss = if is_empty (updated_of name ss) then pure ss else (do
      let new = at_status name (with_replicas []) ss
      update_stateful_set_statuses new
      pure new)

    unfoldable pub restart_opensearch_pods :
        List StatefulSet → List SetStatus → Exec (List SetStatus)
    restart_opensearch_pods [] ss = pure ss
    restart_opensearch_pods (set ∷ sets) ss = do
      known ← find_stateful_set_status set ss
      restarted ←
          (if not (eqb set.replicas set.updated_replicas)
            then restart_opensearch_pod set known
            else pure known)
      cleared ← clear_replicas set.name restarted
      restart_opensearch_pods sets cleared
