-- ===== src/Controller/Cycle/Committed.antt =====
-- The stored hash of the OpenSearch secret, which only a cycle that succeeds changes.
use qubership_opensearch.Prelude.{
  ℕ, ◌⊎◌, inl, inr, ◌≡◌, ◌≢◌, refl, All-append, ==-false, ap, ◌∙◌, String, ◌==◌, none, some, List,
  [], ◌∷◌, ◌++◌, append_assoc, All,
}
use qubership_opensearch.Http.{
  Event, sent, slept, drew_uuid, dialled, called, locked, watched, hashed, looked_at, stored_hash,
  World, Error, Exec, Result, ok, err, panicked, deferred, continue, note, ◌>>=◌,
}
use qubership_opensearch.Http.Trace.{
  Adds, Adds-pure, Adds-raise, Adds-if, Adds-bind, Adds-attempt, Adds-require_ok, Adds-call,
  Adds-sleep, Adds-send_request,
}
use qubership_opensearch.Http.Poll.{Adds-poll_immediate}
use qubership_opensearch.Opensearch.{Kube}
use qubership_opensearch.Opensearch.Secrets.{
  found, find_secret, own_secret, watch_secret, calculate_secret_data_hash,
  parse_secret_credentials,
}
use qubership_opensearch.Controller.{stored_from, resource_hash, secret_hash}
use qubership_opensearch.Controller.Cycle.{
  ReconcileService, Parts, build_reconcilers, Instance, secret_name, parse_opensearch_credentials,
  check_opensearch_is_ready, waited_of, wait_until_ready, reconcile_all, configure_all, run_cycle,
  close_cycle, reconcile,
}

-- The stored hash stays as it is.
abbrev pub IsNoCommit : Event → Type 0
IsNoCommit (stored_hash name value) = name ≢ "secret.opensearch"
IsNoCommit _ = Unit

stored_from-IsNoCommit :
    (now : String) (es : List Event)
    → All IsNoCommit es
    → stored_from now "secret.opensearch" es ≡ now
unfolding stored_from
stored_from-IsNoCommit now [] h = refl
stored_from-IsNoCommit now (stored_hash name value ∷ es) h =
    rw (==-false name "secret.opensearch" h.0) (stored_from-IsNoCommit now es h.1)
stored_from-IsNoCommit now (sent r ∷ es) h = stored_from-IsNoCommit now es h.1
stored_from-IsNoCommit now (slept ms ∷ es) h = stored_from-IsNoCommit now es h.1
stored_from-IsNoCommit now (drew_uuid ∷ es) h = stored_from-IsNoCommit now es h.1
stored_from-IsNoCommit now (dialled url ∷ es) h = stored_from-IsNoCommit now es h.1
stored_from-IsNoCommit now (called c ∷ es) h = stored_from-IsNoCommit now es h.1
stored_from-IsNoCommit now (locked b ∷ es) h = stored_from-IsNoCommit now es h.1
stored_from-IsNoCommit now (watched b ∷ es) h = stored_from-IsNoCommit now es h.1
stored_from-IsNoCommit now (hashed x ∷ es) h = stored_from-IsNoCommit now es h.1
stored_from-IsNoCommit now (looked_at set n b ∷ es) h = stored_from-IsNoCommit now es h.1

stored_from-append :
    (name : String) (xs ys : List Event) (now : String)
    → stored_from now name (xs ++ ys) ≡ stored_from (stored_from now name xs) name ys
unfolding stored_from
stored_from-append name [] ys now = refl
stored_from-append name (stored_hash other value ∷ xs) ys now = stored_from-append name xs ys _
stored_from-append name (sent r ∷ xs) ys now = stored_from-append name xs ys now
stored_from-append name (slept ms ∷ xs) ys now = stored_from-append name xs ys now
stored_from-append name (drew_uuid ∷ xs) ys now = stored_from-append name xs ys now
stored_from-append name (dialled url ∷ xs) ys now = stored_from-append name xs ys now
stored_from-append name (called c ∷ xs) ys now = stored_from-append name xs ys now
stored_from-append name (locked b ∷ xs) ys now = stored_from-append name xs ys now
stored_from-append name (watched b ∷ xs) ys now = stored_from-append name xs ys now
stored_from-append name (hashed x ∷ xs) ys now = stored_from-append name xs ys now
stored_from-append name (looked_at set n b ∷ xs) ys now = stored_from-append name xs ys now

-- The action leaves the stored hash as it is, or succeeds.
record Commits (m : Exec (Unit {0})) : Type 0 where
  at :
      (log : List Event)
      → (new : List Event) × ((m log).1 ≡ log ++ new) × (All IsNoCommit new ⊎ ((m log).0 ≡ ok tt))

Commits-bind :
    {A : Type 0} (m : Exec A) (f : A → Exec (Unit {0}))
    → Adds IsNoCommit m
    → ((a : A) → Commits (f a))
    → Commits (m >>= f)
unfolding ◌>>=◌
Commits-bind {A} m f hm hf = record {
  at = λ log. let (new, same, h) = hm.at log in go (m log).0 (m log).1 log new same h;
}
  where
    both :
        {r : Result (Unit {0})} (new later : List Event)
        → All IsNoCommit new
        → All IsNoCommit later ⊎ (r ≡ ok tt)
        → All IsNoCommit (new ++ later) ⊎ (r ≡ ok tt)
    both new later h (inl free) = inl (All-append IsNoCommit new later h free)
    both new later h (inr done) = inr done

    go :
        (r : Result A) (log' log new : List Event)
        → log' ≡ log ++ new
        → All IsNoCommit new
        → (all : List Event) × ((continue r f log').1 ≡ log ++ all)
          × (All IsNoCommit all ⊎ ((continue r f log').0 ≡ ok tt))
    go (ok a) log' log new same h =
        let (later, grown, ends) = (hf a).at log' in
        (
          new ++ later,
          grown ∙ ap (λ l. l ++ later) same ∙ append_assoc log new later,
          both new later h ends,
        )
    go (err e) log' log new same h = (new, same, inl h)
    go (panicked text) log' log new same h = (new, same, inl h)

Commits-note : (e : Event) → Commits (note e)
unfolding note
Commits-note e = record { at = λ log. (e ∷ [], refl, inr refl) }

Commits-deferred :
    (m : Exec (Unit {0})) (f : Result (Unit {0}) → Exec (Unit {0}))
    → Commits m
    → ((r : Result (Unit {0})) → Adds IsNoCommit (f r))
    → Commits (deferred m f)
unfolding deferred
Commits-deferred m f hm hf = record {
  at = λ log.
      let (new, same, h) = hm.at log in
      let (later, grown, free) = (hf (m log).0).at (m log).1 in
      (
        new ++ later,
        grown ∙ ap (λ l. l ++ later) same ∙ append_assoc log new later,
        elim h as (λ _. All IsNoCommit (new ++ later) ⊎ ((m log).0 ≡ ok tt)) [
          | inl calm ↦ inl (All-append IsNoCommit new later calm free)
          | inr done ↦ inr done
        ],
      );
}

-- A reconciler that stores no hash of the OpenSearch secret.
pub record IsModest (s : ReconcileService) : Type 0 where
  pub reconciles : Adds IsNoCommit s.reconcile
  pub configures : Adds IsNoCommit s.configure

module _ (w : World) (k : Kube) (attempts : ℕ) where
  pub found-Adds : {A : Type 0} (x : A ⊎ Error) → Adds IsNoCommit (found w k x)
  unfolding found
  found-Adds (inl a) = Adds-pure a
  found-Adds (inr e) = Adds-raise e

  find-Adds : (name : String) → Adds IsNoCommit (find_secret w k name)
  unfolding find_secret
  find-Adds name = record { at = λ log. (found-Adds (k.find_secret log name)).at log }

  own-Adds : (name : String) → Adds IsNoCommit (own_secret w k name)
  own-Adds name = record { at = λ log. (Adds-require_ok (k.own log name)).at log }

  watch-Adds : (name : String) → Adds IsNoCommit (watch_secret w k name)
  unfolding watch_secret
  watch-Adds name =
      Adds-bind _ _ (find-Adds name)
        λ _. Adds-bind _ _ (own-Adds name) λ _. Adds-bind _ _ (Adds-call w _ tt) λ _. Adds-pure _

  pub hash-Adds :
      (hash_name secret : String) → Adds IsNoCommit (secret_hash w k attempts hash_name secret)
  unfolding secret_hash resource_hash calculate_secret_data_hash
  hash-Adds hash_name secret =
      Adds-bind _ _ (record { at = λ log. (Adds-pure (stored_from "" hash_name log)).at log })
        λ stored.
          Adds-bind _ _ (Adds-if (stored == "") _ _ (watch-Adds secret) (find-Adds secret))
            λ _. Adds-pure _

  reconcile_all-Adds :
      (ss : List ReconcileService)
      → All IsModest ss
      → Adds IsNoCommit (reconcile_all w k attempts ss)
  unfolding reconcile_all
  reconcile_all-Adds [] h = Adds-pure _
  reconcile_all-Adds (s ∷ ss) h = Adds-bind _ _ h.0.reconciles λ _. reconcile_all-Adds ss h.1

  configure_all-Adds :
      (ss : List ReconcileService)
      → All IsModest ss
      → Adds IsNoCommit (configure_all w k attempts ss)
  unfolding configure_all
  configure_all-Adds [] h = Adds-pure _
  configure_all-Adds (s ∷ ss) h = Adds-bind _ _ h.0.configures λ _. configure_all-Adds ss h.1

  pub credentials-Adds :
      (i : Instance) → Adds IsNoCommit (parse_opensearch_credentials w k attempts i)
  unfolding parse_opensearch_credentials parse_secret_credentials
  credentials-Adds i = record { at = λ log. (Adds-pure _).at log }

  ready-Adds :
      (i : Instance) (client : String ⊎ Error)
      → Adds IsNoCommit (check_opensearch_is_ready w k attempts i client)
  unfolding check_opensearch_is_ready
  ready-Adds i (inr e) = Adds-pure _
  ready-Adds i (inl url) =
      Adds-bind _ _ (credentials-Adds i)
        λ c. Adds-bind _ _ (Adds-send_request w _ _ _ _ tt) λ _. Adds-pure _

  waited-Adds : (r : (Unit {0}) ⊎ Error) → Adds IsNoCommit (waited_of w k attempts r)
  unfolding waited_of
  waited-Adds (inl done) = Adds-pure _
  waited-Adds (inr e) = Adds-raise _

  wait-Adds :
      (i : Instance) (client : String ⊎ Error)
      → Adds IsNoCommit (wait_until_ready w k attempts i client)
  unfolding wait_until_ready
  wait-Adds i client =
      Adds-if i.has_opensearch _ _
        (Adds-bind _ _
          (Adds-attempt _ (Adds-poll_immediate attempts _ none λ _. ready-Adds i client))
          waited-Adds)
        (Adds-pure _)

  close-Adds : (r : Result (Unit {0})) → Adds IsNoCommit (close_cycle w k attempts r)
  unfolding close_cycle
  close-Adds (ok done) = Adds-call w _ tt
  close-Adds (err e) = Adds-call w _ tt
  close-Adds (panicked text) = Adds-call w _ tt

  module _ (i : Instance) (client : String ⊎ Error) (parts : String → Parts)
      (modest : (hash : String) → All IsModest (build_reconcilers (parts hash))) where
    cycle-Commits : Commits (reconcile w k attempts (inl (some i)) client parts)
    unfolding reconcile run_cycle
    cycle-Commits = Commits-bind _ _ (Adds-sleep _ tt) λ _. Commits-bind _ _ (Adds-call w _ tt) λ _.
        Commits-deferred _ _
          (Commits-bind _ _ (hash-Adds "secret.opensearch" (secret_name i)) λ hash.
            Commits-bind _ _ (reconcile_all-Adds _ (modest hash)) λ _.
              Commits-bind _ _ (wait-Adds i client)
                λ _. Commits-bind _ _ (configure_all-Adds _ (modest hash)) λ _. Commits-note _)
          close-Adds

    -- Where no reconciler stores it itself, a cycle that fails or panics leaves the stored hash of the
    -- OpenSearch secret as it was: the next cycle sees a change of the secret again.
    pub reconcile-keeps_hash :
        (log : List Event)
        → (reconcile w k attempts (inl (some i)) client parts log).0 ≢ ok tt
        → stored_from "" "secret.opensearch"
            (reconcile w k attempts (inl (some i)) client parts log).1
          ≡ stored_from "" "secret.opensearch" log
    reconcile-keeps_hash log bad =
        let (new, same, h) = cycle-Commits.at log in
        elim h [
          | inl free ↦
              ap (stored_from "" "secret.opensearch") same
              ∙ stored_from-append "secret.opensearch" log new ""
              ∙ stored_from-IsNoCommit _ new free
          | inr done ↦ absurd (bad done)
        ]
