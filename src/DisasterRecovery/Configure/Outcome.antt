-- ===== src/DisasterRecovery/Configure/Outcome.antt =====
-- How the error that Configure returns and the status that it writes belong together.
use qubership_opensearch.Prelude.{
  ℕ, ◌⊎◌, inl, inr, ◌≡◌, ◌≢◌, refl, ap, ◌∙◌, subst, String, ◌==◌, Option, none, some, List, [], ◌∷◌,
  ◌++◌, if◌then◌else◌, arith, append_assoc, All,
}
use qubership_opensearch.Http.{
  Event, DrStatus, Call, called, set_status, enable_service, World, Error, Exec, Result, ok, err,
  panicked, continue, pure, attempt, attempted, call, deferred, require_ok, ◌>>=◌,
}
use qubership_opensearch.Http.Trace.{Adds, Adds-bind, Adds-pure, Adds-attempt, Adds-if, Adds-call}
use qubership_opensearch.Http.Success.{>>=-eq-ok}
use qubership_opensearch.Replication.Manager.{ReplicationManager}
use qubership_opensearch.DisasterRecovery.Resource.{Resource, Locals, status_of, final_status}
use qubership_opensearch.DisasterRecovery.Configure.{
  enable_client_services, close, close_after, return_of, configure,
}

-- The event enables a client service.
abbrev pub IsEnabling : Event → Type 0
IsEnabling (called (enable_service name)) = Unit
IsEnabling _ = ⊥

-- The last status that the events write is that one.
abbrev pub EndsWith : DrStatus → List Event → Type 0
EndsWith status end =
    (before : List Event) × (after : List Event) × (end
      ≡ before ++ called (set_status status) ∷ after)
    × All IsEnabling after

module _ (w : World) (rm : ReplicationManager) (cr : Resource) (remote : String ⊎ Error)
    (attempts rounds : ℕ) where
  abbrev tail : Exec (Unit {0})
  tail =
      if cr.mode == "active"
      then attempt (enable_client_services w cr) >>= (λ _. pure tt)
      else pure tt

  tail-IsEnabling : Adds IsEnabling tail
  unfolding enable_client_services
  tail-IsEnabling =
      Adds-if _ _ _
        (Adds-bind _ _
          (Adds-attempt _ (
            Adds-bind _ _ (Adds-call w _ tt)
              (λ _. Adds-if _ _ _ (Adds-call w _ tt) (Adds-pure tt))))
          (λ _. Adds-pure tt))
        (Adds-pure tt)

  call-log : (c : Call) (log : List Event) → (call w c log).1 ≡ log ++ called c ∷ []
  unfolding call require_ok
  call-log c log = ground arith

  call-calm : (c : Call) (log : List Event) (text : String) → (call w c log).0 ≢ panicked text
  unfolding call require_ok
  call-calm c log text h = ground arith

  ended :
      (l : Locals) (log log' : List Event)
      → log' ≡ log ++ called (set_status (final_status cr l)) ∷ []
      → EndsWith (final_status cr l) (tail log').1
  ended l log log' same =
      let (new, grown, enabling) = tail-IsEnabling.at log' in
      (log, new, grown ∙ ap (λ x. x ++ new) same ∙ append_assoc log _ new, enabling)

  closed-EndsWith :
      (l : Locals) (r : Result (Unit {0})) (log log' : List Event)
      → ((text : String) → r ≢ panicked text)
      → log' ≡ log ++ called (set_status (final_status cr l)) ∷ []
      → EndsWith (final_status cr l) (continue (attempted r) (λ _. tail) log').1
  unfolding attempted
  closed-EndsWith l (panicked text) log log' calm same = absurd (calm text refl)
  closed-EndsWith l (err e) log log' calm same = ended l log log' same
  closed-EndsWith l (ok done) log log' calm same = ended l log log' same

  close-EndsWith :
      (l : Locals) (log : List Event)
      → EndsWith (final_status cr l) (close w rm cr remote attempts rounds l log).1
  unfolding close attempt ◌>>=◌
  close-EndsWith l log =
      closed-EndsWith l _ log _ (call-calm (set_status (final_status cr l)) log)
        (call-log (set_status (final_status cr l)) log)

  returned :
      (l : Option Locals) (e : Error) (log end : List Event)
      → return_of w rm cr remote attempts rounds l log ≡ (ok (some (some e)), end)
      → (m : Locals) × (l ≡ some m) × (m.error ≡ some e) × (log ≡ end)
  unfolding return_of pure
  returned none e log end h = absurd (cc h)
  returned (some m) e log end h = (m, refl, ground arith, ground arith)

  final_failed :
      (m : Locals) (e : Error)
      → m.error ≡ some e
      → final_status cr m ≡ status_of cr "failed" (some (inr e)) m.users_recovery_state
  unfolding final_status
  final_failed m e failed = rw failed refl

  after-EndsWith :
      (m : Locals) (r : Result (Option Locals)) (log : List Event)
      → r ≡ ok (some m)
      → EndsWith (final_status cr m) (close_after w rm cr remote attempts rounds r log).1
  unfolding close_after
  after-EndsWith m r log same = rw same (close-EndsWith m log)

  -- Where Configure returns an error, other than one from the calculation of the hash, the last
  -- status that it writes is "failed" with that error as its message.
  pub configure-error_recorded :
      (hash : String) (log end : List Event) (e : Error)
      → configure w rm cr remote attempts rounds (inl hash) log ≡ (ok (some (some e)), end)
      → (state : String) × EndsWith (status_of cr "failed" (some (inr e)) state) end
  unfolding configure deferred
  configure-error_recorded hash log end e h =
      let (l, ran, last) = >>=-eq-ok _ _ log h in
      let (m, some_m, failed, same) = returned l e _ end last in
      let finished = ap (λ p. p.0) ran ∙ ap ok some_m in
      (
        m.users_recovery_state,
        subst (λ s. EndsWith s end) (final_failed m e failed)
            (subst (EndsWith (final_status cr m)) same (after-EndsWith m _ _ finished)),
      )
