-- ===== src/DisasterRecovery/Recovery/End.antt =====
-- How the recovery of the users ends.
use qubership_opensearch.Prelude.{
  ℕ, zero, suc, ◌⊎◌, inl, inr, ◌≡◌, ◌≢◌, ap, String, true, ◌||◌, ◌==◌, eq_iff, none, some, List,
  arith, Bool-cases,
}
use qubership_opensearch.Http.{Event, World, Error, ok}
use qubership_opensearch.Http.Success.{>>=-eq-ok, pure-eq-ok}
use qubership_opensearch.DisasterRecovery.Recovery.{
  DbaasAdapter, Recovered, proceed, recovered_of, initial_state, recovery_loop, recover_users,
}

recovered_of-done :
    (state s : String)
    → (state == "done" || state == "failed") ≡ true
    → recovered_of state ≡ (s, none)
    → s ≡ "done"
unfolding recovered_of
recovered_of-done state s over h = ground (arith, eq_iff state "done", eq_iff state "failed")

some-eq : {x y : Recovered} → some x ≡ some y → x ≡ y
some-eq e = cc e

none-ne : {x : Recovered} → none ≢ some x
none-ne e = cc e

module _ (w : World) (a : DbaasAdapter) (attempts : ℕ) where
  after_round :
      (rounds : ℕ) (s : String) (r : String ⊎ Error) (log end : List Event)
      → ((next : String) (l : List Event)
          → recovery_loop w a attempts rounds next l ≡ (ok (some (s, none)), end)
          → s ≡ "done")
      → proceed (λ next. recovery_loop w a attempts rounds next) r log ≡ (ok (some (s, none)), end)
      → s ≡ "done"
  unfolding proceed
  after_round rounds s (inl next) log end go_on h = go_on next log h
  after_round rounds s (inr e) log end go_on h =
      absurd (cc (ap (λ (x : Recovered). x.1) (some-eq (pure-eq-ok _ _ h).0)))

  recovery_loop-done :
      (rounds : ℕ) (state s : String) (log end : List Event)
      → recovery_loop w a attempts rounds state log ≡ (ok (some (s, none)), end)
      → s ≡ "done"
  unfolding recovery_loop
  recovery_loop-done zero state s log end h =
      elim (Bool-cases (state == "done" || state == "failed")) [
        | inl over ↦ recovered_of-done state s over (some-eq (pure-eq-ok _ _ (rw over at h)).0)
        | inr going ↦ absurd (none-ne (pure-eq-ok _ _ (rw going at h)).0)
      ]
  recovery_loop-done (suc rounds) state s log end h =
      elim (Bool-cases (state == "done" || state == "failed")) [
        | inl over ↦ recovered_of-done state s over (some-eq (pure-eq-ok _ _ (rw over at h)).0)
        | inr going ↦
            let (r, round, last) = >>=-eq-ok _ _ log (rw going at h) in
            after_round rounds s r _ end (λ next l. recovery_loop-done rounds next s l end) last
      ]

  -- If the recovery of the users returns no error, then the state that it returns is "done".
  pub recover_users-done :
      (rounds : ℕ) (state s : String) (log end : List Event)
      → recover_users w a attempts rounds state log ≡ (ok (some (s, none)), end)
      → s ≡ "done"
  unfolding recover_users
  recover_users-done rounds state s log end h = elim (Bool-cases (state == "")) [
    | inl fresh ↦ cc (some-eq (pure-eq-ok _ _ (rw fresh at h)).0)
    | inr old ↦ recovery_loop-done rounds (initial_state state) s log end (rw old at h)
  ]
