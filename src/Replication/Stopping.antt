-- ===== src/Replication/Stopping.antt =====
-- Which requests stop replications: stopIndicesReplication, RemoveReplicationRule.
use qubership_opensearch.Prelude.{
  String, ◌≡◌, ◌≢◌, refl, sym, ◌∙◌, ap, true, some, List, [], ◌∷◌, ◌++◌, map, append_assoc,
  append-nil, arith,
}
use qubership_opensearch.Json.{object}
use qubership_opensearch.Http.{
  Method, Event, sent, slept, World, Result, ok, err, panicked, continue, pure, require_ok, ensure,
  ◌>>=◌, sleep, send_request, send_basic_request, request_of,
}
use qubership_opensearch.Replication.Manager.{
  ReplicationManager, stop_path, stop_index, stop_indices, stop_indices_replication,
}

module _ (w : World) (rm : ReplicationManager) where
  abbrev pub stop_event : String → Event
  stop_event index =
      sent (request_of rm.rest_client Method.post (stop_path index) (some (object [])) true)

  stop_index-log :
      (index : String) (log : List Event)
      → (stop_index w rm index log).1 ≡ log ++ stop_event index ∷ []
  unfolding stop_index send_request send_basic_request require_ok ensure ◌>>=◌
  stop_index-log index log = ground arith

  stop_index-ne-panicked :
      (index : String) (log : List Event) (text : String)
      → (stop_index w rm index log).0 ≢ panicked text
  unfolding stop_index send_request send_basic_request require_ok ensure ◌>>=◌
  stop_index-ne-panicked index log text h = ground arith

-- The events of stopping the replication of a list of indices, by how it ended. A failure ends the
-- loop at the index that could not be stopped.
module _ (w : World) (rm : ReplicationManager) where
  abbrev Halted : List String → List Event → Result (Unit {0}) × List Event → Type 0
  Halted indices log (ok done, log') = log' ≡ log ++ map (stop_event w rm) indices
  Halted indices log (err e, log') =
      (before : List String) × (index : String) × (after : List String) × (indices
        ≡ before ++ index ∷ after)
      × (log' ≡ log ++ map (stop_event w rm) (before ++ index ∷ []))
  Halted indices log (panicked text, log') = ⊥

  Halted-cons :
      (index : String) (indices : List String) (log log' : List Event)
      → log' ≡ log ++ stop_event w rm index ∷ []
      → (end : Result (Unit {0}) × List Event) → Halted indices log' end
      → Halted (index ∷ indices) log end
  Halted-cons index indices log log' same (ok done, l) h =
      h ∙ ap (λ x. x ++ map (stop_event w rm) indices) same ∙ append_assoc log _ _
  Halted-cons index indices log log' same (panicked text, l) h = h
  Halted-cons index indices log log' same (err e, l) (before, at, after, split, h) = (
    index ∷ before,
    at,
    after,
    ap (λ x. index ∷ x) split,
    h ∙ ap (λ x. x ++ map (stop_event w rm) (before ++ at ∷ [])) same ∙ append_assoc log _ _,
  )

  Halted-continue :
      (index : String) (indices : List String) (log log' : List Event)
      → log' ≡ log ++ stop_event w rm index ∷ []
      → (r : Result (Unit {0})) → ((text : String) → r ≢ panicked text)
      → Halted indices log' (stop_indices w rm indices log')
      → Halted (index ∷ indices) log (continue r (λ _. stop_indices w rm indices) log')
  Halted-continue index indices log log' same (ok done) calm h =
      Halted-cons index indices log log' same (stop_indices w rm indices log') h
  Halted-continue index indices log log' same (err e) calm h = ([], index, indices, refl, same)
  Halted-continue index indices log log' same (panicked text) calm h = calm text refl

  stop_indices-Halted :
      (indices : List String) (log : List Event)
      → Halted indices log (stop_indices w rm indices log)
  unfolding stop_indices pure ◌>>=◌
  stop_indices-Halted [] log = sym (append-nil log)
  stop_indices-Halted (index ∷ indices) log =
      let log' = (stop_index w rm index log).1 in
      Halted-continue index indices log log' (stop_index-log w rm index log)
        (stop_index w rm index log).0 (stop_index-ne-panicked w rm index log)
        (stop_indices-Halted indices log')

  abbrev pub Stopped : List String → List Event → Result (Unit {0}) × List Event → Type 0
  Stopped indices log (ok done, log') =
      log' ≡ (log ++ map (stop_event w rm) indices) ++ slept 3000 ∷ []
  Stopped indices log (err e, log') = Halted indices log (err e, log')
  Stopped indices log (panicked text, log') = ⊥

  Stopped-continue :
      (indices : List String) (log : List Event) (r : Result (Unit {0})) (log' : List Event)
      → Halted indices log (r, log')
      → Stopped indices log (continue r (λ _. sleep 3000) log')
  unfolding sleep
  Stopped-continue indices log (ok done) log' h = ap (λ x. x ++ slept 3000 ∷ []) h
  Stopped-continue indices log (err e) log' h = h
  Stopped-continue indices log (panicked text) log' h = h

  -- Stopping the replication of a list of indices sends one `_stop` request for each index, in the
  -- order of the list, and then waits three seconds. If it fails, it has sent the requests up to
  -- one index and none after it, and has not waited. It does not panic.
  pub stop_indices_replication-Stopped :
      (indices : List String) (log : List Event)
      → Stopped indices log (stop_indices_replication w rm indices log)
  unfolding stop_indices_replication ◌>>=◌
  stop_indices_replication-Stopped indices log =
      Stopped-continue indices log _ _ (stop_indices-Halted indices log)
