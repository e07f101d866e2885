-- ===== src/Adapter/Recovery/Batches.antt =====
-- The batches of a recovery of the users.
use qubership_opensearch.Prelude.{
  ℕ, zero, suc, ◌≤◌, ◌⊎◌, inl, inr, ◌≡◌, ◌≢◌, refl, sym, ◌∙◌, subst, String, Bool, true, false,
  is_empty, length, take, drop, is_some, Option, none, some, List, [], ◌∷◌, ◌++◌, map,
  take-append-drop, length-take-le, length-drop, if◌then◌else◌, arith,
}
use qubership_opensearch.Http.{
  Method, Request, Outcome, failed, broken, answered, Event, sent, slept, World, Error, Exec,
  Result, ok, err, panicked, continue, pure, raise, attempt, attempted, sleep, ◌>>=◌, ◌>>◌,
}
use qubership_opensearch.Http.Success.{>>=-eq-ok, pure-eq-ok}
use qubership_opensearch.DisasterRecovery.Process.{error_of, try}
use qubership_opensearch.Adapter.Transport.{perform}
use qubership_opensearch.Adapter.Users.{
  ConnectionProperties, Change, write_changes, patch_users, patched_of,
}
use qubership_opensearch.Adapter.Recovery.{
  RecoveryState, running, done, batch_size, change_of, attempt_batch, recover_from, recovery,
}

-- The status of a response, also of one whose body cannot be read.
abbrev pub code_of : Outcome → Option ℕ
code_of (failed e) = none
code_of (broken code e) = some code
code_of (answered code b) = some code

-- The request that adds the users of a batch.
abbrev pub addition : List Change → Request
addition batch = record {
  method = Method.patch;
  url = "/_plugins/_security/api/internalusers";
  payload = some (write_changes batch);
  json_headers = true;
  basic_auth = none;
}

module _ (w : World) where
  -- The batch is sent and answered with 200, after fewer than that many attempts in vain, each followed
  -- by a wait of ten seconds.
  pub data Accepted : ℕ → List Change → List Event → List Event → Type 0 where
    taken :
        {n : ℕ} {batch : List Change} {log : List Event}
        → code_of (w.respond log (addition batch)) ≡ some 200
        → Accepted (suc n) batch log (log ++ sent (addition batch) ∷ [])
    refused :
        {n : ℕ} {batch : List Change} {log end : List Event}
        → Accepted n batch ((log ++ sent (addition batch) ∷ []) ++ slept 10000 ∷ []) end
        → Accepted (suc n) batch log end

  -- From `log` to `end` nothing happens but that the changes are sent in their order, in batches of at
  -- most 100, each of which is accepted within three attempts.
  pub data Sent : List Change → List Event → List Event → Type 0 where
    over : {log : List Event} → Sent [] log log
    one_more :
        {log mid end : List Event} (first rest : List Change)
        → length first ≤ 100
        → Accepted 3 first log mid
        → Sent rest mid end
        → Sent (first ++ rest) log end

  patched :
      (o : Outcome) (r : Option Error) (log end : List Event)
      → try (patched_of o) log ≡ (ok r, end)
      → (log ≡ end) × (r ≡ none → code_of o ≡ some 200)
  unfolding try attempt attempted error_of patched_of raise pure ◌>>=◌
  patched (failed e) r log end h = ground arith
  patched (broken code e) r log end h = ground arith
  patched (answered code b) r log end h = ground arith

  try_patch :
      (batch : List Change) (r : Option Error) (log : List Event)
      → is_empty batch ≡ false
      → try (patch_users w batch) log ≡ (ok r, (try (patch_users w batch) log).1)
      → (log ++ sent (addition batch) ∷ [] ≡ (try (patch_users w batch) log).1)
        × (r ≡ none → code_of (w.respond log (addition batch)) ≡ some 200)
  unfolding patch_users perform try attempt ◌>>=◌
  try_patch batch r log full h =
      rw full (patched (w.respond log (addition batch)) r _ _ (rw full at h))

  -- What follows an attempt.
  after_attempt :
      (n : ℕ) (batch : List Change) (log end : List Event)
      → ((e : Error) (l : List Event)
          → attempt_batch w n (some e) batch l ≡ (ok none, end)
          → Accepted n batch l end)
      → (r : Option Error) → (r ≡ none → code_of (w.respond log (addition batch)) ≡ some 200)
      → (l : List Event) → log ++ sent (addition batch) ∷ [] ≡ l
      → (if is_some r then (do sleep 10000; attempt_batch w n r batch) else pure none) l
        ≡ (ok none, end)
      → Accepted (suc n) batch log end
  unfolding sleep ◌>>=◌
  after_attempt n batch log end again none good l same h =
      subst (Accepted (suc n) batch log) (same ∙ (pure-eq-ok _ _ h).1) (taken (good refl))
  after_attempt n batch log end again (some e) good l same h =
      refused (subst (λ x. Accepted n batch (x ++ slept 10000 ∷ []) end) (sym same) (again e _ h))

  -- Where no attempt is left, the last one has failed.
  attempt_batch-Accepted :
      (n : ℕ) (e : Error) (batch : List Change) (log end : List Event)
      → is_empty batch ≡ false
      → attempt_batch w n (some e) batch log ≡ (ok none, end)
      → Accepted n batch log end
  unfolding attempt_batch
  attempt_batch-Accepted zero e batch log end full h = absurd (cc ((pure-eq-ok _ _ h).0))
  attempt_batch-Accepted (suc n) e batch log end full h =
      let (r, first, rest) = >>=-eq-ok _ _ log h in
      let (gone, good) = try_patch batch r log full first in
      after_attempt n batch log end (λ e' l. attempt_batch-Accepted n e' batch l end full) r good _
        gone rest

  three-Accepted :
      (batch : List Change) (log end : List Event)
      → is_empty batch ≡ false
      → attempt_batch w 3 none batch log ≡ (ok none, end)
      → Accepted 3 batch log end
  unfolding attempt_batch
  three-Accepted batch log end full h =
      let (r, first, rest) = >>=-eq-ok _ _ log h in
      let (gone, good) = try_patch batch r log full first in
      after_attempt 2 batch log end (λ e l. attempt_batch-Accepted 2 e batch l end full) r good _
        gone rest

  done-ne-running : {x : Bool} → x ≡ false → (if x then done else running) ≢ done
  done-ne-running off e = cc (rw off at e)

  recover_from-Sent :
      (fuel : ℕ) (changes : List Change) (log end : List Event)
      → recover_from w fuel changes log ≡ (ok done, end)
      → Sent changes log end
  unfolding recover_from
  recover_from-Sent zero [] log end h = subst (Sent [] log) (pure-eq-ok _ _ h).1 over
  recover_from-Sent (suc fuel) [] log end h = subst (Sent [] log) (pure-eq-ok _ _ h).1 over
  recover_from-Sent zero (c ∷ cs) log end h = absurd (cc ((pure-eq-ok _ _ h).0))
  recover_from-Sent (suc fuel) (c ∷ cs) log end h =
      let (r, tried, last) = >>=-eq-ok _ _ log h in
      go (λ l. recover_from-Sent fuel (drop batch_size (c ∷ cs)) l end) r _ tried last
    where
      go :
          ((l : List Event)
            → recover_from w fuel (drop batch_size (c ∷ cs)) l ≡ (ok done, end)
            → Sent (drop batch_size (c ∷ cs)) l end)
          → (r : Option Error) → (mid : List Event)
          → attempt_batch w 3 none (take batch_size (c ∷ cs)) log ≡ (ok r, mid)
          → (if is_some r
                then pure RecoveryState.failed
                else recover_from w fuel (drop batch_size (c ∷ cs)))
              mid
            ≡ (ok done, end)
          → Sent (c ∷ cs) log end
      go later none mid tried last =
          subst (λ l. Sent l log end) (take-append-drop batch_size (c ∷ cs))
            (one_more (take batch_size (c ∷ cs)) (drop batch_size (c ∷ cs))
              (length-take-le batch_size (c ∷ cs))
              (three-Accepted (take batch_size (c ∷ cs)) log mid refl tried) (later mid last))
      go later (some e) mid tried last = absurd (cc ((pure-eq-ok _ _ last).0))

  -- If the recovery ends in the state "done", then the change of every user was sent: in order, in
  -- batches of at most 100 users, each of which was answered with 200 within three attempts; and nothing
  -- else was done than this and the waits between the attempts.
  pub recovery-Sent :
      (properties : List ConnectionProperties) (log end : List Event)
      → recovery w properties log ≡ (ok done, end)
      → Sent (map change_of properties) log end
  unfolding recovery
  recovery-Sent properties log end h = recover_from-Sent _ _ log end h

  patch-calm :
      (changes : List Change) (log : List Event) (text : String)
      → (patch_users w changes log).0 ≢ panicked text
  unfolding patch_users perform patched_of raise pure ◌>>=◌
  patch-calm changes log text h = ground arith

  -- A tried action that does not panic has a result.
  try-total :
      (m : Exec (Unit {0})) (log : List Event)
      → ((text : String) → (m log).0 ≢ panicked text)
      → (r : Option Error) × ((try m log).0 ≡ ok r)
  unfolding try attempt attempted error_of pure ◌>>=◌
  try-total m log calm = go (m log).0 (m log).1 calm
    where
      go :
          (r : Result (Unit {0})) (l : List Event)
          → ((text : String) → r ≢ panicked text)
          → (e : Option Error) × ((continue (attempted r) (λ x. pure (error_of x)) l).0 ≡ ok e)
      go (ok d) l calm = (none, refl)
      go (err e) l calm = (some e, refl)
      go (panicked text) l calm = absurd (calm text refl)

  attempt_batch-total :
      (attempts : ℕ) (last : Option Error) (changes : List Change) (log : List Event)
      → (r : Option Error) × ((attempt_batch w attempts last changes log).0 ≡ ok r)
  unfolding attempt_batch sleep pure ◌>>=◌
  attempt_batch-total zero last changes log = (last, refl)
  attempt_batch-total (suc n) last changes log =
      go (λ e l. attempt_batch-total n e changes l)
        (try-total (patch_users w changes) log (patch-calm changes log))
    where
      go :
          ((e : Option Error) (l : List Event)
            → (r : Option Error) × ((attempt_batch w n e changes l).0 ≡ ok r))
          → (r : Option Error) × ((try (patch_users w changes) log).0 ≡ ok r)
          → (r : Option Error) × ((attempt_batch w (suc n) last changes log).0 ≡ ok r)
      go again (none, tried) = (none, rw tried refl)
      go again (some e, tried) = rw tried (again (some e) _)

  recover_from-total :
      (fuel : ℕ) (changes : List Change) (log : List Event)
      → length changes ≤ fuel
      → ((recover_from w fuel changes log).0 ≡ ok done)
        ⊎ ((recover_from w fuel changes log).0 ≡ ok RecoveryState.failed)
  unfolding recover_from pure ◌>>=◌
  recover_from-total zero [] log enough = inl refl
  recover_from-total (suc fuel) [] log enough = inl refl
  recover_from-total zero (c ∷ cs) log enough = absurd (omega arith)
  recover_from-total (suc fuel) (c ∷ cs) log enough =
      go
        (λ l.
          recover_from-total fuel (drop batch_size (c ∷ cs)) l
            (omega (arith, length-drop batch_size (c ∷ cs))))
        (attempt_batch-total 3 none (take batch_size (c ∷ cs)) log)
    where
      go :
          ((l : List Event)
            → ((recover_from w fuel (drop batch_size (c ∷ cs)) l).0 ≡ ok done)
              ⊎ ((recover_from w fuel (drop batch_size (c ∷ cs)) l).0 ≡ ok RecoveryState.failed))
          → (r : Option Error) × ((attempt_batch w 3 none (take batch_size (c ∷ cs)) log).0 ≡ ok r)
          → ((recover_from w (suc fuel) (c ∷ cs) log).0 ≡ ok done)
            ⊎ ((recover_from w (suc fuel) (c ∷ cs) log).0 ≡ ok RecoveryState.failed)
      go again (none, tried) = rw tried (again _)
      go again (some e, tried) = rw tried (inr refl)

  -- A recovery comes to an end, in the state "done" or in the state "failed", whatever OpenSearch
  -- answers: it never leaves the state "running" behind.
  pub recovery-ends :
      (properties : List ConnectionProperties) (log : List Event)
      → ((recovery w properties log).0 ≡ ok done)
        ⊎ ((recovery w properties log).0 ≡ ok RecoveryState.failed)
  unfolding recovery
  recovery-ends properties log = recover_from-total _ _ log (omega arith)
