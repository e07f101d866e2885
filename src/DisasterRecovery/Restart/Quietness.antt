-- ===== src/DisasterRecovery/Restart/Quietness.antt =====
-- What a run of the watcher's check and restart leaves behind.
use qubership_opensearch.Prelude.{◌⊎◌, inl, inr, ◌≡◌, ◌≢◌, Bool, true, false, List, Bool-cases}
use qubership_opensearch.Http.{
  Event, World, Error, Exec, Result, ok, err, panicked, pure, continue, attempt, attempted, sleep,
  ◌>>=◌,
}
use qubership_opensearch.Replication.Manager.{ReplicationManager}
use qubership_opensearch.DisasterRecovery.Restart.{
  check_replication, after_start, after_removal, restart_replication, read_paused, after_check,
  restart_replication_on_failure,
}

-- The action returns no error.
abbrev NeverErrs : {A : Type 0} → Exec A → Type 0
NeverErrs m = (log : List Event) (e : Error) → (m log).0 ≢ err e

module _ {A B : Type 0} (m : Exec A) (f : A ⊎ Error → Exec B) where
  continue-NeverErrs :
      (r : Result A) (log : List Event) (e : Error)
      → ((x : A ⊎ Error) → NeverErrs (f x))
      → (continue (attempted r) f log).0 ≢ err e
  unfolding attempted
  continue-NeverErrs (ok a) log e hf h = hf (inl a) log e h
  continue-NeverErrs (err d) log e hf h = hf (inr d) log e h
  continue-NeverErrs (panicked text) log e hf h = cc

  -- An error that is caught does not come back by itself.
  attempt-NeverErrs : ((x : A ⊎ Error) → NeverErrs (f x)) → NeverErrs (attempt m >>= f)
  unfolding attempt ◌>>=◌
  attempt-NeverErrs hf log e h = continue-NeverErrs (m log).0 (m log).1 e hf h

pure-NeverErrs : NeverErrs (pure tt)
unfolding pure
pure-NeverErrs log e h = cc

module _ (w : World) (rm : ReplicationManager) where
  after_start-NeverErrs : (r : (Unit {0}) ⊎ Error) → NeverErrs (after_start w rm r)
  unfolding after_start sleep
  after_start-NeverErrs (inl done) log e h = cc
  after_start-NeverErrs (inr d) log e h = pure-NeverErrs log e h

  after_removal-NeverErrs : (r : (Unit {0}) ⊎ Error) → NeverErrs (after_removal w rm r)
  unfolding after_removal
  after_removal-NeverErrs (inl done) = attempt-NeverErrs _ _ after_start-NeverErrs
  after_removal-NeverErrs (inr d) = pure-NeverErrs

  restart-NeverErrs : NeverErrs (restart_replication w rm)
  unfolding restart_replication
  restart-NeverErrs = attempt-NeverErrs _ _ after_removal-NeverErrs

  module _ (is_paused : List Event → Bool) where
    after_check-NeverErrs : (r : (Unit {0}) ⊎ Error) → NeverErrs (after_check w rm is_paused r)
    unfolding after_check read_paused ◌>>=◌
    after_check-NeverErrs (inl done) log e h = pure-NeverErrs log e h
    after_check-NeverErrs (inr d) log e h = elim (Bool-cases (is_paused log)) [
      | inl on ↦ pure-NeverErrs log e (rw on at h)
      | inr off ↦ restart-NeverErrs log e (rw off at h)
    ]

    -- No error leaves a round of the watcher: whatever fails in the check, in the removal of the
    -- replication or in its new start is caught, and the watcher lives on.
    pub restart_on_failure-ne-err :
        (log : List Event) (e : Error)
        → (restart_replication_on_failure w rm is_paused log).0 ≢ err e
    unfolding restart_replication_on_failure
    restart_on_failure-ne-err = attempt-NeverErrs _ _ after_check-NeverErrs

    -- A round in which the check passes, or after whose check the watcher is paused, changes
    -- nothing: it leaves the events of the check and no other.
    pub restart_on_failure-calm :
        (log : List Event)
        → ((check_replication w rm false log).0 ≡ ok tt)
          ⊎ ((is_paused (check_replication w rm false log).1 ≡ true)
              × ((e : Error) × ((check_replication w rm false log).0 ≡ err e)))
        → restart_replication_on_failure w rm is_paused log
          ≡ (ok tt, (check_replication w rm false log).1)
    unfolding restart_replication_on_failure attempt attempted after_check read_paused pure ◌>>=◌
    restart_on_failure-calm log (inl passed) = rw passed
    restart_on_failure-calm log (inr (paused, (e, fails))) = rw fails (rw paused)
