-- ===== src/DisasterRecovery/Restart/Failures.antt =====
-- What the watcher's check of the replication has seen where it passes.
use qubership_opensearch.Prelude.{
  ◌⊎◌, inl, inr, ◌≡◌, ◌≢◌, ap, String, Bool, true, false, not, ◌==◌, eq_iff, ◌&&◌, contains,
  is_empty, filter_bool, Option, none, some, List, [], ◌∷◌, if◌then◌else◌, arith, Bool-cases,
}
use qubership_opensearch.Http.{Event, World, Error, ok, attempt, attempted, ensure}
use qubership_opensearch.Http.Success.{
  >>=-eq-ok, pure-eq-ok, raise-ne-ok, ensure-eq-ok, attempted-inl,
}
use qubership_opensearch.Replication.Stats.{ReplicationIndexStats, RuleStats}
use qubership_opensearch.Replication.Manager.{
  ReplicationManager, get_auto_follow_rule_stats, get_index_replication_status,
}
use qubership_opensearch.Replication.Indices.{get_indices_by_pattern_exclude_service}
use qubership_opensearch.DisasterRecovery.Checker.{is_visible}
use qubership_opensearch.DisasterRecovery.Restart.{
  is_failed, failed_replications, check_listed, check_found, check_rule, check_replication,
}

-- What the watcher accepts of one index: a status that cannot be read, or one that is not FAILED,
-- and PAUSED only where the index was lost on the active side.
abbrev pub IsAccepted : ReplicationIndexStats ⊎ Error → Type 0
IsAccepted (inr e) = Unit
IsAccepted (inl s) =
    (s.status ≢ "FAILED")
    × (s.status ≡ "PAUSED" → contains s.reason "IndexNotFoundException" ≡ true)

is_failed-IsAccepted : (r : ReplicationIndexStats ⊎ Error) → is_failed r ≡ false → IsAccepted r
unfolding is_failed
is_failed-IsAccepted (inr e) h = tt
is_failed-IsAccepted (inl s) h =
    ((λ same. cc (rw ((eq_iff s.status "FAILED").1 same) at h)), (λ same. lost same h))
  where
    lost :
        s.status ≡ "PAUSED"
        → (if s.status == "FAILED"
            then true
            else s.status == "PAUSED" && not (contains s.reason "IndexNotFoundException"))
          ≡ false
        → contains s.reason "IndexNotFoundException" ≡ true
    lost same h = ground (arith, eq_iff s.status "PAUSED", eq_iff s.status "FAILED")

kept_empty :
    (b : Bool) (index : String) (rest : List String)
    → is_empty (if b then index ∷ rest else rest) ≡ true
    → (b ≡ false) × (is_empty rest ≡ true)
kept_empty b index rest h = ground arith

module _ (w : World) (rm : ReplicationManager) where
  -- Read one after another from `log` on, the indices are accepted.
  abbrev pub Works : List String → List Event → Type 0
  Works [] log = Unit
  Works (index ∷ indices) log =
      let read = attempt (get_index_replication_status w rm index) log in
      (r : ReplicationIndexStats ⊎ Error) × (read.0 ≡ ok r) × IsAccepted r × Works indices read.1

  failed_replications-Works :
      (indices : List String) (log end : List Event) (failed : List String)
      → failed_replications w rm indices log ≡ (ok failed, end)
      → is_empty failed ≡ true
      → Works indices log
  unfolding failed_replications
  failed_replications-Works [] log end failed h none_failed = tt
  failed_replications-Works (index ∷ indices) log end failed h none_failed =
      let (r, read, h1) = >>=-eq-ok _ _ log h in
      let (rest, later, h2) = >>=-eq-ok _ _ _ h1 in
      let same = (pure-eq-ok _ _ h2).0 in
      let (fine, others) = kept_empty (is_failed r) index rest (rw (same) none_failed) in
      (
        r,
        ap (λ p. p.0) read,
        is_failed-IsAccepted r fine,
        failed_replications-Works indices _ _ rest later others,
      )

  -- What the branch behind the read of the indices has seen.
  abbrev AfterListing : List String ⊎ Error → List Event → Type 0
  AfterListing (inl indices) log = Works indices log
  AfterListing (inr e) log = Unit

  check_listed-Works :
      (r : List String ⊎ Error) (log end : List Event)
      → check_listed w rm r log ≡ (ok tt, end)
      → AfterListing r log
  unfolding check_listed
  check_listed-Works (inr e) log end h = tt
  check_listed-Works (inl indices) log end h =
      let (failed, read, last) = >>=-eq-ok _ _ log h in
      failed_replications-Works indices log _ failed read (ensure-eq-ok _ _ _ last).0

  check_found-Works :
      (rule : RuleStats) (log end : List Event)
      → check_found w rm rule log ≡ (ok tt, end)
      → (is_empty (filter_bool is_visible rule.failed_indices) ≡ true)
        × ((r : List String ⊎ Error) × ((attempt
                (get_indices_by_pattern_exclude_service w rm rm.pattern)
                log).0
              ≡ ok r)
            × AfterListing r
                (attempt (get_indices_by_pattern_exclude_service w rm rm.pattern) log).1)
  unfolding check_found
  check_found-Works rule log end h =
      elim (Bool-cases (is_empty (filter_bool is_visible rule.failed_indices))) [
        | inl quiet ↦
            let (r, read, last) = >>=-eq-ok _ _ log (rw quiet at h) in
            (quiet, (r, ap (λ p. p.0) read, check_listed-Works r _ end last))
        | inr loud ↦ absurd (raise-ne-ok _ _ (rw loud at h))
      ]

  -- The DR rule was found, it names no visible failed index, and the indices of the pattern were
  -- accepted, if they could be listed.
  abbrev pub Seen : List Event → Type 0
  Seen log =
      let found = get_auto_follow_rule_stats w rm log in
      let listed = attempt (get_indices_by_pattern_exclude_service w rm rm.pattern) found.1 in
      (rule : RuleStats) × (found.0 ≡ ok (some rule))
      × (is_empty (filter_bool is_visible rule.failed_indices) ≡ true)
      × ((r : List String ⊎ Error) × (listed.0 ≡ ok r) × AfterListing r listed.1)

  refused : (e : Error) (log end : List Event) → ensure false e log ≢ (ok tt, end)
  refused e log end h = cc ((ensure-eq-ok false e log h).0)

  -- If the watcher's check passes, then the DR rule was found and names no visible failed index;
  -- and the indices of the pattern could not be listed, or each of them, read one after another,
  -- has a status that cannot be read or one that is not FAILED, and PAUSED only where the index was
  -- lost on the active side.
  pub check_replication-Seen :
      (log end : List Event) → check_replication w rm false log ≡ (ok tt, end) → Seen log
  unfolding check_replication check_rule attempt
  check_replication-Seen log end h =
      let (found, read, last) = >>=-eq-ok _ _ log h in go found (ap (λ p. p.0) read) last
    where
      go :
          (found : Option RuleStats ⊎ Error)
          → attempted (get_auto_follow_rule_stats w rm log).0 ≡ ok found
          → check_rule w rm false found (get_auto_follow_rule_stats w rm log).1 ≡ (ok tt, end)
          → Seen log
      go (inl (some rule)) read last =
          let (quiet, rest) = check_found-Works rule _ end last in
          (rule, attempted-inl _ read, quiet, rest)
      go (inl none) read last = absurd (refused _ _ _ last)
      go (inr e) read last = absurd (refused _ _ _ last)
