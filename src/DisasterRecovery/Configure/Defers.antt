-- ===== src/DisasterRecovery/Configure/Defers.antt =====
-- What the deferred calls of Configure make sure of.
use qubership_opensearch.Prelude.{
  ℕ, ◌⊎◌, inl, inr, ◌≡◌, ◌≢◌, refl, ap, ◌∙◌, String, Bool, true, false, ◌||◌, eq_iff, Option, none,
  some, List, [], ◌∷◌, ◌++◌, if◌then◌else◌, arith, All,
}
use qubership_opensearch.Http.{
  Event, sent, slept, drew_uuid, dialled, called, locked, watched, hashed, looked_at, stored_hash,
  set_status, World, Error, Exec, Result, ok, err, panicked, continue, pure, attempt, attempted,
  call, note, deferred, require_ok, ◌>>=◌,
}
use qubership_opensearch.Http.Trace.{
  Adds, Adds-bind, Adds-pure, Adds-attempt, Adds-if, Adds-call, Adds-note,
}
use qubership_opensearch.Replication.Manager.{ReplicationManager}
use qubership_opensearch.DisasterRecovery.Resource.{
  Resource, Locals, untouched, status_of, is_switch_due, is_hash_changed, final_status,
}
use qubership_opensearch.DisasterRecovery.Configure.{
  enable_client_services, release, switch_over, settle, body, close, close_after, return_of,
  configure,
}

-- Whether the lock is held behind the events.
abbrev pub held_from : Bool → List Event → Bool
held_from b [] = b
held_from b (locked x ∷ es) = held_from x es
held_from b (e ∷ es) = held_from b es

abbrev pub held : List Event → Bool
held es = held_from false es

held-append :
    (b : Bool) (xs ys : List Event) → held_from b (xs ++ ys) ≡ held_from (held_from b xs) ys
held-append b [] ys = refl
held-append b (locked x ∷ xs) ys = held-append x xs ys
held-append b (watched x ∷ xs) ys = held-append b xs ys
held-append b (hashed x ∷ xs) ys = held-append b xs ys
held-append b (looked_at s n x ∷ xs) ys = held-append b xs ys
held-append b (stored_hash s x ∷ xs) ys = held-append b xs ys
held-append b (called x ∷ xs) ys = held-append b xs ys
held-append b (dialled x ∷ xs) ys = held-append b xs ys
held-append b (drew_uuid ∷ xs) ys = held-append b xs ys
held-append b (slept x ∷ xs) ys = held-append b xs ys
held-append b (sent x ∷ xs) ys = held-append b xs ys

abbrev pub IsNoLock : Event → Type 0
IsNoLock (locked x) = ⊥
IsNoLock _ = Unit

held-IsNoLock : (b : Bool) (es : List Event) → All IsNoLock es → held_from b es ≡ b
held-IsNoLock b [] h = refl
held-IsNoLock b (locked x ∷ es) h = absurd h.0
held-IsNoLock b (watched x ∷ es) h = held-IsNoLock b es h.1
held-IsNoLock b (hashed x ∷ es) h = held-IsNoLock b es h.1
held-IsNoLock b (looked_at s n x ∷ es) h = held-IsNoLock b es h.1
held-IsNoLock b (stored_hash s x ∷ es) h = held-IsNoLock b es h.1
held-IsNoLock b (called x ∷ es) h = held-IsNoLock b es h.1
held-IsNoLock b (dialled x ∷ es) h = held-IsNoLock b es h.1
held-IsNoLock b (drew_uuid ∷ es) h = held-IsNoLock b es h.1
held-IsNoLock b (slept x ∷ es) h = held-IsNoLock b es h.1
held-IsNoLock b (sent x ∷ es) h = held-IsNoLock b es h.1

-- An action that does not touch the lock leaves it as it is.
held-Adds :
    {A : Type 0} (m : Exec A) → Adds IsNoLock m → (log : List Event) → held (m log).1 ≡ held log
held-Adds m h log =
    let (new, same, free) = h.at log in
    ap held same ∙ held-append false log new ∙ held-IsNoLock (held log) new free

held-unlocked : (log : List Event) → held (log ++ locked false ∷ []) ≡ false
held-unlocked log = held-append false log (locked false ∷ [])

module _ (w : World) (cr : Resource) where
  enable-IsNoLock : Adds IsNoLock (enable_client_services w cr)
  unfolding enable_client_services
  enable-IsNoLock =
      Adds-bind _ _ (Adds-call w _ tt) λ _. Adds-if _ _ _ (Adds-call w _ tt) (Adds-pure tt)

module _ (w : World) (rm : ReplicationManager) (cr : Resource) (remote : String ⊎ Error)
    (attempts rounds : ℕ) where
  close-IsNoLock : (l : Locals) → Adds IsNoLock (close w rm cr remote attempts rounds l)
  unfolding close
  close-IsNoLock l = Adds-bind _ _ (Adds-attempt _ (Adds-call w _ tt)) λ _.
      Adds-if _ _ _ (Adds-bind _ _ (Adds-attempt _ (enable-IsNoLock w cr)) (λ _. Adds-pure tt))
        (Adds-pure tt)

  close_after-IsNoLock :
      (r : Result (Option Locals)) → Adds IsNoLock (close_after w rm cr remote attempts rounds r)
  unfolding close_after
  close_after-IsNoLock (ok none) = Adds-pure tt
  close_after-IsNoLock (ok (some l)) = close-IsNoLock l
  close_after-IsNoLock (err e) = close-IsNoLock _
  close_after-IsNoLock (panicked text) = close-IsNoLock _

  settle-IsNoLock :
      (hash : String) (l : Option Locals)
      → Adds IsNoLock (settle w rm cr remote attempts rounds hash l)
  unfolding settle
  settle-IsNoLock hash none = Adds-pure none
  settle-IsNoLock hash (some l) =
      Adds-if l.early _ _ (Adds-pure (some l))
        (Adds-bind _ _ (Adds-note _ tt) λ _. Adds-bind _ _ (Adds-note _ tt) λ _. Adds-pure (some l))

  release-held :
      (r : Result (Option Locals)) (log : List Event)
      → r ≢ ok none
      → held (release w rm cr remote attempts rounds r log).1 ≡ false
  unfolding release note
  release-held (ok none) log over = absurd (over refl)
  release-held (ok (some l)) log over = held-unlocked log
  release-held (err e) log over = held-unlocked log
  release-held (panicked text) log over = held-unlocked log

  switch_over-held :
      (hash : String) (log : List Event)
      → (switch_over w rm cr remote attempts rounds hash log).0 ≢ ok none
      → held (switch_over w rm cr remote attempts rounds hash log).1 ≡ false
  unfolding switch_over note deferred ◌>>=◌
  switch_over-held hash log over = release-held _ _ over

  body-held :
      (hash : String) (log : List Event)
      → held log ≡ false
      → (body w rm cr remote attempts rounds hash log).0 ≢ ok none
      → held (body w rm cr remote attempts rounds hash log).1 ≡ false
  unfolding body
  body-held hash log free over = go (is_switch_due cr || is_hash_changed cr hash) over
    where
      begin : Bool → Exec (Option Locals)
      begin b =
          if b
          then switch_over w rm cr remote attempts rounds hash
          else settle w rm cr remote attempts rounds hash (some untouched)

      go : (b : Bool) → (begin b log).0 ≢ ok none → held (begin b log).1 ≡ false
      go true over = switch_over-held hash log over
      go false over = held-Adds _ (settle-IsNoLock hash (some untouched)) log ∙ free

  return-held :
      (r : Result (Option Locals)) (log : List Event)
      → held log ≡ false
      → held (continue r (return_of w rm cr remote attempts rounds) log).1 ≡ false
  unfolding return_of pure
  return-held (ok none) log free = free
  return-held (ok (some l)) log free = free
  return-held (err e) log free = free
  return-held (panicked text) log free = free

  return-none :
      (r : Result (Option Locals)) (log : List Event)
      → r ≡ ok none
      → (continue r (return_of w rm cr remote attempts rounds) log).0 ≡ ok none
  unfolding return_of pure
  return-none r log same = rw same refl

  -- Where Configure comes to its end, by a return on any path or by a panic, the lock of the
  -- watcher is free, if it was free before.
  pub configure-unlocks :
      (hash : String ⊎ Error) (log : List Event)
      → held log ≡ false
      → (configure w rm cr remote attempts rounds hash log).0 ≢ ok none
      → held (configure w rm cr remote attempts rounds hash log).1 ≡ false
  unfolding configure deferred return_of pure ◌>>=◌
  configure-unlocks (inr e) log free over = free
  configure-unlocks (inl hash) log free over =
      let ended = body w rm cr remote attempts rounds hash log in
      let closed = close_after w rm cr remote attempts rounds ended.0 ended.1 in
      return-held ended.0 closed.1 (
        held-Adds _ (close_after-IsNoLock ended.0) ended.1
        ∙ body-held hash log free (λ e. over (return-none ended.0 closed.1 e)))

-- A round of the reconciliation in which nothing has changed.
module _ (w : World) (rm : ReplicationManager) (cr : Resource) (remote : String ⊎ Error)
    (attempts rounds : ℕ) where
  -- Where the mode of the resource is that of its status, the status is none of "running", "failed"
  -- and "queue", and the hash of the configuration has not changed, Configure sends nothing and
  -- returns no error: outside the mode "active" it stores the hash, starts or pauses the watcher as
  -- the resource says, and writes the status "done".
  pub configure-idle :
      (hash : String) (log : List Event)
      → is_switch_due cr ≡ false
      → is_hash_changed cr hash ≡ false
      → cr.mode ≢ "active"
      → configure w rm cr remote attempts rounds (inl hash) log ≡ (
        ok (some none),
        ((log ++ hashed hash ∷ []) ++ watched cr.watcher_enabled ∷ [])
            ++ called (set_status (status_of cr "done" none "done")) ∷ [],
      )
  unfolding configure deferred body settle note close_after close return_of final_status attempt
      attempted call require_ok pure ◌>>=◌
  configure-idle hash log same_mode same_hash passive = ground (arith, eq_iff cr.mode "active")
