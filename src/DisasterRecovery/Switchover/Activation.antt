-- ===== src/DisasterRecovery/Switchover/Activation.antt =====
-- What is checked before a switchover to the mode "active" stops the replication.
use qubership_opensearch.Prelude.{
  ◌⊎◌, inl, inr, ◌≡◌, ◌≢◌, String, if◌then◌else◌, refl, ap, ◌∙◌, Bool, true, false, Option, none,
  some, List, [], is_some, not, ◌&&◌,
}
use qubership_opensearch.Http.{Event, World, Error, Exec, ok, err, pure, attempt, attempted, ◌>>=◌}
use qubership_opensearch.Http.Success.{>>=-eq-ok, pure-eq-ok, attempted-inl, attempted-inr}
use qubership_opensearch.Replication.Manager.{ReplicationManager, get_replicated_indices}
use qubership_opensearch.Replication.Check.{
  check_indices, await_progress, update_in_progress_indices, update_indices,
  execute_replication_check,
}
use qubership_opensearch.Replication.Progress.{Passed, execute_replication_check-Passed}
use qubership_opensearch.DisasterRecovery.Process.{error_of, try}
use qubership_opensearch.DisasterRecovery.Restart
use qubership_opensearch.DisasterRecovery.Switchover.{index_names, check_before_stop}
use qubership_opensearch.DisasterRecovery.Switchover

some-ne-none : (e : Error) → some e ≢ none
some-ne-none e h = cc

module _ (w : World) (rm : ReplicationManager) where
  -- A check of no indices passes, and sends nothing.
  check-nil : (log : List Event) → execute_replication_check w rm [] log ≡ (ok tt, log)
  unfolding execute_replication_check check_indices await_progress update_in_progress_indices
      update_indices pure ◌>>=◌
  check-nil log = refl

  indices-unread :
      (log : List Event) (e : Error)
      → (get_replicated_indices w rm log).0 ≡ err e
      → (Switchover.check_indices w rm log).0 ≡ ok none
  unfolding Switchover.check_indices attempt attempted index_names try error_of pure ◌>>=◌
  indices-unread log e unread = rw unread (rw (check-nil (get_replicated_indices w rm log).1))

  -- If the list of the replicated indices cannot be read, the check before an activation passes
  -- without a look at any index, wherever the check of the rule before it has passed.
  pub unread_indices_pass :
      (log : List Event) (e : Error)
      → (try (Restart.check_replication w rm true) log).0 ≡ ok none
      → (get_replicated_indices w rm (try (Restart.check_replication w rm true) log).1).0 ≡ err e
      → (check_before_stop w rm true log).0 ≡ ok none
  unfolding check_before_stop Switchover.check_behind ◌>>=◌
  unread_indices_pass log e passed unread = rw passed (indices-unread _ e unread)

  error_of-none : (r : (Unit {0}) ⊎ Error) → error_of r ≡ none → r ≡ inl tt
  unfolding error_of
  error_of-none (inl done) h = refl
  error_of-none (inr e) h = cc

  try-none :
      (m : Exec Unit) (log end : List Event) → try m log ≡ (ok none, end) → m log ≡ (ok tt, end)
  unfolding try attempt
  try-none m log end h =
      let (r, tried, last) = >>=-eq-ok _ _ log h in
      let (answer, over) = pure-eq-ok _ _ last in
      let first = attempted-inl _ (ap (λ p. p.0) tried ∙ ap ok (error_of-none r answer)) in
      ap (λ x. (x, (m log).1)) first ∙ ap (λ l. (ok tt, l)) over

  -- The list of the replicated indices was read, and the check of these has passed, or it could not
  -- be read.
  abbrev pub IndicesChecked : List Event → List Event → Type 0
  IndicesChecked log end =
      let read = get_replicated_indices w rm log in
      ((indices : List String) × (read.0 ≡ ok indices) × Passed w rm indices read.1 end)
      ⊎ ((e : Error) × (read.0 ≡ err e))

  abbrev pub Checked : List Event → List Event → Type 0
  Checked log end =
      let rest = (try (Restart.check_replication w rm true) log).1 in IndicesChecked rest end

  check_indices-Checked :
      (log end : List Event)
      → Switchover.check_indices w rm log ≡ (ok none, end)
      → IndicesChecked log end
  unfolding Switchover.check_indices attempt index_names
  check_indices-Checked log end h =
      let (r, tried, last) = >>=-eq-ok _ _ log h in go r (ap (λ p. p.0) tried) (try-none _ _ _ last)
    where
      go :
          (r : List String ⊎ Error)
          → attempted (get_replicated_indices w rm log).0 ≡ ok r
          → execute_replication_check w rm (index_names r) (get_replicated_indices w rm log).1
            ≡ (ok tt, end)
          → IndicesChecked log end
      go (inl indices) tried passed = inl (
        indices,
        attempted-inl _ tried,
        execute_replication_check-Passed w rm indices _ end passed,
      )
      go (inr e) tried passed = inr (e, attempted-inr _ tried)

  -- Where the check before an activation passes, the check of the replication rule has passed; and if a
  -- check of the indices is needed, then it has passed for the list of the replicated indices, or that
  -- list could not be read. If it is not needed, no other event follows the check of the rule.
  pub check_before_stop-Checked :
      (check_needed : Bool) (log end : List Event)
      → check_before_stop w rm check_needed log ≡ (ok none, end)
      → ((Restart.check_replication w rm true log).0 ≡ ok tt)
        × (check_needed ≡ true → Checked log end)
        × (check_needed ≡ false → (Restart.check_replication w rm true log).1 ≡ end)
  unfolding check_before_stop Switchover.check_behind
  check_before_stop-Checked check_needed log end h =
      let (r, tried, last) = >>=-eq-ok _ _ log h in go check_needed r tried last
    where
      go :
          (needed : Bool) (r : Option Error)
          → try (Restart.check_replication w rm true) log
            ≡ (ok r, (try (Restart.check_replication w rm true) log).1)
          → (if not (is_some r) && needed then Switchover.check_indices w rm else pure r)
              (try (Restart.check_replication w rm true) log).1
            ≡ (ok none, end)
          → ((Restart.check_replication w rm true log).0 ≡ ok tt)
            × (needed ≡ true → Checked log end)
            × (needed ≡ false → (Restart.check_replication w rm true log).1 ≡ end)
      go true none tried last = (
        ap (λ p. p.0) (try-none _ log _ tried),
        λ needed. check_indices-Checked _ end last,
        λ off. absurd (cc off),
      )
      go false none tried last = (
        ap (λ p. p.0) (try-none _ log _ tried),
        λ needed. absurd (cc needed),
        λ off. ap (λ p. p.1) (try-none _ log _ tried) ∙ (pure-eq-ok _ _ last).1,
      )
      go needed (some e) tried last = absurd (some-ne-none e (pure-eq-ok _ _ last).0)
