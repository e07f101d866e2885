-- ===== src/Opensearch/Pods/Resume.antt =====
-- Which pods a restart deletes: a rolling update goes on where it was interrupted.
use qubership_opensearch.Prelude.{
  ℕ, zero, suc, ◌≤◌, ◌⊎◌, inl, inr, ◌≡◌, refl, sym, ◌∙◌, ap, String, Bool, true, false, not, eqb,
  filter_bool, Option, none, some, List, [], ◌∷◌, ◌++◌, map, append-nil, append_assoc,
  if◌then◌else◌, Bool-cases, arith,
}
use qubership_opensearch.Http.{
  Event, called, SetStatus, World, Error, call, require_ok, note, delete_pod, pure, ◌>>=◌, ◌>>◌,
}
use qubership_opensearch.Http.Trace.{Adds, Adds-call}
use qubership_opensearch.Http.Yields.{Yields, Yields-pure, Yields-bind}
use qubership_opensearch.Http.Automaton.{
  run, IsIdle, Moves, Moves-pure, Moves-raise, Moves-if, Moves-to, Moves-idle, Moves-bind,
  Moves-bind_of, Ends,
}
use qubership_opensearch.Http.Poll.{Adds-poll_immediate}
use qubership_opensearch.Opensearch.{StatefulSet, Kube}
use qubership_opensearch.Opensearch.Pods.{
  array_contains, at_status, find_status, updated_of, generation_of, forgotten,
  update_stateful_set_statuses, get_updated_replicas_slice, deletion_of, delete_pod_by_name,
  check_pod, wait_until_opensearch_pod_is_ready, restart_from, restart_opensearch_pod,
}

-- The pods that were deleted, in order.
abbrev pub Deleted : Type 0
Deleted = List (String × ℕ)

abbrev pub collect : Event → Deleted → Option Deleted
collect (called (delete_pod set n)) ps = some (ps ++ (set, n) ∷ [])
collect _ ps = some ps

-- n - 1, …, 0
abbrev pub countdown : ℕ → List ℕ
countdown zero = []
countdown (suc n) = n ∷ countdown n

-- The ordinals below `n` that are not among the updated ones, the highest first.
abbrev pub due : ℕ → List ℕ → List ℕ
due n updated = filter_bool (λ r. not (array_contains updated r)) (countdown n)

-- The replicas that the status has as updated, if it is of this generation of the set.
abbrev pub recorded : World → Kube → StatefulSet → List SetStatus → List ℕ
recorded w k set ss =
    if not (eqb set.generation (generation_of w k set.name ss)) then [] else updated_of set.name ss

array_contains-append :
    (updated : List ℕ) (n m : ℕ)
    → suc m ≤ n
    → array_contains (updated ++ n ∷ []) m ≡ array_contains updated m
unfolding array_contains
array_contains-append [] n m low = ground arith
array_contains-append (u ∷ updated) n m low = ground (arith, array_contains-append updated n m low)

due-append : (n m : ℕ) (updated : List ℕ) → n ≤ m → due n (updated ++ m ∷ []) ≡ due n updated
due-append zero m updated low = refl
due-append (suc n) m updated low =
    rw (array_contains-append updated m n low, due-append n m updated (omega arith)) refl

updated_of-forgotten :
    (w : World) (k : Kube) (set : StatefulSet) (ss : List SetStatus)
    → updated_of set.name (at_status set.name (forgotten w k set) ss) ≡ []
unfolding at_status find_status
updated_of-forgotten w k set [] = refl
updated_of-forgotten w k set (s ∷ ss) = ground (arith, updated_of-forgotten w k set ss)

reached :
    (set : String) (n : ℕ) (updated : List ℕ) (ps : Deleted)
    → (ps ++ (set, n) ∷ []) ++ map (λ r. (set, r)) (due n (updated ++ n ∷ []))
      ≡ ps ++ (set, n) ∷ map (λ r. (set, r)) (due n updated)
reached set n updated ps =
    append_assoc ps ((set, n) ∷ []) _
    ∙ ap (λ rs. ps ++ (set, n) ∷ map (λ r. (set, r)) rs) (due-append n n updated (omega arith))

module _ (w : World) (k : Kube) where
  update-IsIdle :
      (ss : List SetStatus) → Adds (IsIdle collect) (update_stateful_set_statuses w k ss)
  unfolding update_stateful_set_statuses
  update-IsIdle ss = Adds-call w _ (λ s. refl)

  update-Moves :
      (ps : Deleted) (ss : List SetStatus)
      → Moves collect ps (λ _. ps) (update_stateful_set_statuses w k ss)
  update-Moves ps ss = Moves-idle collect ps _ (update-IsIdle ss)

  deletion-Moves :
      (ps : Deleted) (set : String) (n : ℕ) (found : List Bool ⊎ Error)
      → Moves collect ps (λ _. ps ++ (set, n) ∷ []) (deletion_of w k set n found)
  unfolding deletion_of call require_ok
  deletion-Moves ps set n (inr e) = Moves-raise collect ps e
  deletion-Moves ps set n (inl containers) = record {
    at = λ log. go log (w.call log (delete_pod set n));
  }
    where
      go :
          (log : List Event) (o : Option Error)
          → (new : List Event) × ((require_ok o (log ++ called (delete_pod set n) ∷ [])).1
              ≡ log ++ new)
            × Ends collect
                (λ _. ps ++ (set, n) ∷ [])
                (require_ok o (log ++ called (delete_pod set n) ∷ [])).0
                (run collect ps new)
      go log none = (called (delete_pod set n) ∷ [], refl, refl)
      go log (some e) = (called (delete_pod set n) ∷ [], refl, (ps ++ (set, n) ∷ [], refl))

  delete-Moves :
      (ps : Deleted) (set : String) (n : ℕ)
      → Moves collect ps (λ _. ps ++ (set, n) ∷ []) (delete_pod_by_name w k set n)
  unfolding delete_pod_by_name
  delete-Moves ps set n = record {
    at = λ log. (deletion-Moves ps set n (k.find_pod log set n)).at log;
  }

  wait-IsIdle :
      (attempts : ℕ) (set : String) (n : ℕ)
      → Adds (IsIdle collect) (wait_until_opensearch_pod_is_ready w k attempts set n)
  unfolding wait_until_opensearch_pod_is_ready check_pod note pure ◌>>=◌
  wait-IsIdle attempts set n =
      Adds-poll_immediate attempts _ none
        λ _. record { at = λ log. (_ ∷ [], refl, (λ s. refl, tt)) }

  module _ (attempts : ℕ) where
    restart_from-Moves :
        (set : String) (n : ℕ) (updated : List ℕ) (ss : List SetStatus) (ps : Deleted)
        → Moves collect ps
            (λ _. ps ++ map (λ r. (set, r)) (due n updated))
            (restart_from w k attempts set n updated ss)
    unfolding restart_from
    restart_from-Moves set zero updated ss ps =
        Moves-to collect (Moves-pure collect {q = λ _. ps} ss) (λ _. sym (append-nil ps))
    restart_from-Moves set (suc n) updated ss ps = elim (Bool-cases (array_contains updated n)) [
      | inl known ↦ rw known (restart_from-Moves set n updated ss ps)
      | inr new ↦ rw new (
          Moves-to collect
            (Moves-bind collect _ _ (delete-Moves ps set n) λ _.
              Moves-bind collect _ _ (Moves-idle collect _ _ (wait-IsIdle attempts set n)) λ _.
                Moves-bind collect _ _ (update-Moves _ _)
                  λ _. restart_from-Moves set n (updated ++ n ∷ []) _ (ps ++ (set, n) ∷ []))
            (λ _. reached set n updated ps))
    ]

    slice-Yields :
        (set : StatefulSet) (ss : List SetStatus)
        → Yields
            (λ current. updated_of set.name current ≡ recorded w k set ss)
            (get_updated_replicas_slice w k set ss)
    unfolding get_updated_replicas_slice
    slice-Yields set ss = go (not (eqb set.generation (generation_of w k set.name ss)))
      where
        go :
            (b : Bool)
            → Yields
                (λ current.
                  updated_of set.name current ≡ (if b then [] else updated_of set.name ss))
                (if b
                  then (do
                    let new = at_status set.name (forgotten w k set) ss
                    update_stateful_set_statuses w k new
                    pure new)
                  else pure ss)
        go true = Yields-bind _ _ λ _. Yields-pure _ (updated_of-forgotten w k set ss)
        go false = Yields-pure ss refl

    slice-Moves :
        (set : StatefulSet) (ss : List SetStatus) (ps : Deleted)
        → Moves collect ps (λ _. ps) (get_updated_replicas_slice w k set ss)
    unfolding get_updated_replicas_slice
    slice-Moves set ss ps =
        Moves-if collect _ _ _
          (Moves-bind collect _ _ (update-Moves ps _) λ _. Moves-pure collect _)
          (Moves-pure collect _)

    -- A restart of the pods of a set that returns no error has deleted, each of them once and the highest
    -- ordinal first, those below the number of replicas that the status does not have as updated; if the
    -- status is of another generation of the set, all of them.
    pub restart_opensearch_pod-Moves :
        (set : StatefulSet) (ss : List SetStatus)
        → Moves collect []
            (λ _. map (λ r. (set.name, r)) (due set.replicas (recorded w k set ss)))
            (restart_opensearch_pod w k attempts set ss)
    unfolding restart_opensearch_pod
    restart_opensearch_pod-Moves set ss =
        Moves-bind_of collect _ _ (slice-Moves set ss []) (slice-Yields set ss) λ current same.
          Moves-to collect
            (restart_from-Moves set.name set.replicas (updated_of set.name current) current [])
            (λ _. ap (λ rs. map (λ r. (set.name, r)) (due set.replicas rs)) same)
