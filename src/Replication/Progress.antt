-- ===== src/Replication/Progress.antt =====
-- What a passed replication check has seen.
use qubership_opensearch.Prelude.{
  ℕ, zero, suc, String, ◌⊎◌, inl, inr, Bool-cases, eq_iff, ◌≡◌, refl, sym, ap, subst, ◌∙◌,
  append-nil, append_assoc, Bool, true, false, not, some, List, [], ◌∷◌, ◌++◌, arith, is_empty,
  if◌then◌else◌, Dict, insert,
}
use qubership_opensearch.Prelude.Int.{ℤ, ltb_ℤ, eqb_ℤ}
use qubership_opensearch.Http.{Event, World, message, ok, pure, raise, sleep, ◌>>=◌}
use qubership_opensearch.Http.Trace.{Adds, Adds-pure, Adds-sleep, Adds-send_request, adds_rules}
use qubership_opensearch.Http.Success.{>>=-eq-ok, pure-eq-ok, raise-ne-ok, lift-eq-ok}
use qubership_opensearch.Replication.Stats.{ReplicationIndexStats}
use qubership_opensearch.Replication.Manager.{
  ReplicationManager, status_path, get_replication_index_stats, get_index_replication_status,
}
use qubership_opensearch.Replication.Check.{
  Collected, match_string, regex_of, collect, check_index, check_indices, update_index,
  update_indices, update_in_progress_indices, replication_check_timeout,
  replication_attempts_number, await_progress, execute_replication_check,
}

insert-ne-nil : {V : Type 0} (k : String) (v : V) (d : Dict V) → is_empty (insert k v d) ≡ false
insert-ne-nil k v [] = refl
insert-ne-nil k v ((j, x) ∷ d) = ground arith

snoc-ne-nil : (xs : List String) (x : String) → is_empty (xs ++ x ∷ []) ≡ false
snoc-ne-nil [] x = refl
snoc-ne-nil (y ∷ xs) x = refl

kept_empty :
    (b : Bool) (k : String) (v : ℤ) (rest rest' : Dict ℤ)
    → rest' ≡ (if b then insert k v rest else rest)
    → is_empty rest' ≡ true
    → (b ≡ false) × (is_empty rest ≡ true)
kept_empty true k v rest rest' same empty = cc (same, empty, insert-ne-nil k v rest)
kept_empty false k v rest rest' same empty = (refl, rw (← same) empty)

module _ (w : World) (rm : ReplicationManager) where
  -- Read one after another from `log` to `end`, the indices have reached their leader checkpoints.
  abbrev pub CaughtUp : Dict ℤ → List Event → List Event → Type 0
  CaughtUp [] log end = log ≡ end
  CaughtUp ((index, checkpoint) ∷ more) log end =
      let read = get_replication_index_stats w rm (status_path index) log in
      (stats : ReplicationIndexStats) × (read.0 ≡ ok stats)
      × (ltb_ℤ stats.details.follower_checkpoint checkpoint ≡ false)
      × CaughtUp more read.1 end

  abbrev pub IsReplicating : ReplicationIndexStats → Type 0
  IsReplicating stats = (stats.status ≡ "SYNCING") ⊎ (stats.status ≡ "BOOTSTRAPPING")

  -- Read one after another from `log` to `end`, each index that matches the pattern is replicating; the
  -- map gets the leader checkpoint of each that has not reached it.
  pub data Replicate : List String → Dict ℤ → List Event → Dict ℤ → List Event → Type 0 where
    finished : {d : Dict ℤ} {log : List Event} → Replicate [] d log d log
    skipped :
        {index : String} {indices : List String} {d behind : Dict ℤ} {log end : List Event}
        → match_string w (regex_of rm.pattern) index ≡ some false
        → Replicate indices d log behind end
        → Replicate (index ∷ indices) d log behind end
    level :
        {index : String} {indices : List String} {d behind : Dict ℤ} {log end : List Event}
        (stats : ReplicationIndexStats)
        → match_string w (regex_of rm.pattern) index ≡ some true
        → (get_index_replication_status w rm index log).0 ≡ ok stats
        → IsReplicating stats
        → eqb_ℤ stats.details.leader_checkpoint stats.details.follower_checkpoint ≡ true
        → Replicate indices d (get_index_replication_status w rm index log).1 behind end
        → Replicate (index ∷ indices) d log behind end
    lagging :
        {index : String} {indices : List String} {d behind : Dict ℤ} {log end : List Event}
        (stats : ReplicationIndexStats)
        → match_string w (regex_of rm.pattern) index ≡ some true
        → (get_index_replication_status w rm index log).0 ≡ ok stats
        → IsReplicating stats
        → eqb_ℤ stats.details.leader_checkpoint stats.details.follower_checkpoint ≡ false
        → Replicate indices
            (insert index stats.details.leader_checkpoint d)
            (get_index_replication_status w rm index log).1
            behind
            end
        → Replicate (index ∷ indices) d log behind end

  update_index-eq-ok :
      (index : String) (checkpoint : ℤ) (rest rest' : Dict ℤ) (log end : List Event)
      → update_index w rm index checkpoint rest log ≡ (ok rest', end)
      → (stats : ReplicationIndexStats) × ((get_replication_index_stats w rm
            (status_path index)
            log).0
          ≡ ok stats)
        × ((get_replication_index_stats w rm (status_path index) log).1 ≡ end)
        × (rest' ≡ (
            if ltb_ℤ stats.details.follower_checkpoint checkpoint
            then insert index checkpoint rest
            else rest))
  unfolding update_index
  update_index-eq-ok index checkpoint rest rest' log end h =
      let (stats, first, last) = >>=-eq-ok _ _ log h in
      let (same, ended) = pure-eq-ok _ _ last in (stats, ap (λ p. p.0) first, ended, sym same)

  update_indices-nil :
      (d rest : Dict ℤ) (log end : List Event)
      → update_indices w rm d rest log ≡ (ok [], end)
      → (is_empty rest ≡ true) × CaughtUp d log end
  unfolding update_indices
  update_indices-nil [] rest log end h = let (same, over) = pure-eq-ok rest log h in (rw same, over)
  update_indices-nil ((index, checkpoint) ∷ more) rest log end h =
      let (rest', first, last) = >>=-eq-ok _ _ log h in
      let (stats, read, ended, same) = update_index-eq-ok index checkpoint rest rest' log _ first in
      let (none_left, caught) = update_indices-nil more rest' _ end last in
      let (reached, rest_empty) = kept_empty _ index checkpoint rest rest' same none_left in
      (rest_empty, (stats, read, reached, rw ended caught))

  Adds-update : (d rest : Dict ℤ) → Adds (λ _. Unit {0}) (update_indices w rm d rest)
  unfolding update_indices update_index get_replication_index_stats
  Adds-update [] rest = Adds-pure rest
  Adds-update ((index, checkpoint) ∷ more) rest =
      search (adds_rules, Adds-send_request, Adds-update more)

  await_progress-CaughtUp :
      (attempts : ℕ) (d : Dict ℤ) (log end : List Event)
      → await_progress w rm attempts d log ≡ (ok tt, end)
      → (last later : List Event) × (last ≡ log ++ later) × CaughtUp d last end
  unfolding await_progress update_in_progress_indices
  await_progress-CaughtUp zero d log end h = absurd (raise-ne-ok _ log h)
  await_progress-CaughtUp (suc attempts) d log end h =
      let (rest, first, last) = >>=-eq-ok _ _ log h in
      go (λ l. await_progress-CaughtUp attempts d l end) rest first last
    where
      log' : List Event
      log' = (update_indices w rm d [] log).1

      go :
          ((l : List Event)
            → await_progress w rm attempts d l ≡ (ok tt, end)
            → (last' later : List Event) × (last' ≡ l ++ later) × CaughtUp d last' end)
          → (rest : Dict ℤ) → update_indices w rm d [] log ≡ (ok rest, log')
          → (if is_empty rest
                then pure tt
                else sleep replication_check_timeout >>= λ _. await_progress w rm attempts d)
              log'
            ≡ (ok tt, end)
          → (last' later : List Event) × (last' ≡ log ++ later) × CaughtUp d last' end
      go again [] first last =
          let over = (pure-eq-ok _ _ last).1 in
          (
            log,
            [],
            sym (append-nil log),
            subst (CaughtUp d log) over (update_indices-nil d [] log log' first).1,
          )
      go again (x ∷ rest) first last =
          let (_, slept, more) = >>=-eq-ok _ _ log' last in
          let (from, later, same, caught) = again _ more in
          let (new, grown, _) = (Adds-update d []).at log in
          let (pause, longer, _) =
            (Adds-sleep {P = λ _. Unit} replication_check_timeout tt).at log' in
          (
            from,
            new ++ (pause ++ later),
            same
                ∙ ap (λ l. l ++ later) longer
                ∙ append_assoc log' pause later
                ∙ ap (λ l. l ++ (pause ++ later)) grown
                ∙ append_assoc log new (pause ++ later),
            caught,
          )

  -- A step of the first loop that keeps the list of failures empty has met no failure.
  collect-replicates :
      (index : String) (stats : ReplicationIndexStats) (c : Collected)
      → is_empty (collect index stats c).failed ≡ true
      → IsReplicating stats × (is_empty c.failed ≡ true)
  unfolding collect
  collect-replicates index stats c h = ground (
    arith,
    snoc-ne-nil c.failed index,
    eq_iff stats.status "SYNCING",
    eq_iff stats.status "BOOTSTRAPPING",
  )

  collect-level :
      (index : String) (stats : ReplicationIndexStats) (c : Collected)
      → IsReplicating stats
      → eqb_ℤ stats.details.leader_checkpoint stats.details.follower_checkpoint ≡ true
      → (collect index stats c).in_progress ≡ c.in_progress
  unfolding collect
  collect-level index stats c (inl e) same = rw (e, same) refl
  collect-level index stats c (inr e) same = rw (e, same) refl

  collect-lagging :
      (index : String) (stats : ReplicationIndexStats) (c : Collected)
      → IsReplicating stats
      → eqb_ℤ stats.details.leader_checkpoint stats.details.follower_checkpoint ≡ false
      → (collect index stats c).in_progress
        ≡ insert index stats.details.leader_checkpoint c.in_progress
  unfolding collect
  collect-lagging index stats c (inl e) differ = rw (e, differ) refl
  collect-lagging index stats c (inr e) differ = rw (e, differ) refl

  -- The reads of the first loop from `c` on, which has met no failure before.
  unfoldable Loops : List String → Collected → List Event → Collected → List Event → Type 0
  Loops indices c log c' end =
      (is_empty c.failed ≡ true) × Replicate indices c.in_progress log c'.in_progress end

  collected :
      (index : String) (indices : List String) (stats : ReplicationIndexStats) (c c' : Collected)
      (log end : List Event)
      → match_string w (regex_of rm.pattern) index ≡ some true
      → (get_index_replication_status w rm index log).0 ≡ ok stats
      → Loops indices (collect index stats c) (get_index_replication_status w rm index log).1 c' end
      → Loops (index ∷ indices) c log c' end
  unfolding Loops
  collected index indices stats c c' log end answer read (none_failed, rest) =
      let (replicating, before) = collect-replicates index stats c none_failed in
      (
        before,
        elim (Bool-cases
            (eqb_ℤ stats.details.leader_checkpoint stats.details.follower_checkpoint)) [
              | inl same ↦ level stats answer read replicating same (
                  subst
                    (λ d.
                      Replicate indices d (get_index_replication_status w rm index log).1
                        c'.in_progress end)
                    (collect-level index stats c replicating same) rest)
              | inr differ ↦ lagging stats answer read replicating differ (
                  subst
                    (λ d.
                      Replicate indices d (get_index_replication_status w rm index log).1
                        c'.in_progress end)
                    (collect-lagging index stats c replicating differ) rest)
            ],
      )

  check_index-Loops :
      (index : String) (indices : List String) (c d c' : Collected) (log mid end : List Event)
      → check_index w rm index c log ≡ (ok d, mid)
      → Loops indices d mid c' end
      → Loops (index ∷ indices) c log c' end
  unfolding check_index Loops
  check_index-Loops index indices c d c' log mid end h rest =
      let (matched, test, more) = >>=-eq-ok _ _ log h in
      let (answer, same) = lift-eq-ok _ _ log test in
      subst (λ l. Loops (index ∷ indices) c l c' end) (sym same) (go matched answer _ more)
    where
      go :
          (matched : Bool)
          → match_string w (regex_of rm.pattern) index ≡ some matched
          → (l : List Event)
          → (if not matched
                then pure c
                else get_index_replication_status w rm index >>= λ stats.
                    pure (collect index stats c))
              l
            ≡ (ok d, mid)
          → Loops (index ∷ indices) c l c' end
      go false answer l last =
          let (kept, ended) = pure-eq-ok c l last in
          let (none_failed, reads) =
            subst (λ x. Loops indices x l c' end) (sym kept)
              (subst (λ x. Loops indices d x c' end) (sym ended) rest) in
          (none_failed, skipped answer reads)
      go true answer l last =
          let (stats, read, final) = >>=-eq-ok (get_index_replication_status w rm index) _ l last in
          let (kept, ended) = pure-eq-ok _ _ final in
          collected index indices stats c c' l end answer (ap (λ p. p.0) read) (
            subst (λ x. Loops indices x (get_index_replication_status w rm index l).1 c' end)
              (sym kept) (subst (λ x. Loops indices d x c' end) (sym ended) rest))

  check_indices-Loops :
      (indices : List String) (c c' : Collected) (log end : List Event)
      → check_indices w rm indices c log ≡ (ok c', end)
      → is_empty c'.failed ≡ true
      → Loops indices c log c' end
  unfolding check_indices Loops
  check_indices-Loops [] c c' log end h none_failed =
      let (same, over) = pure-eq-ok c log h in
      (
        rw same none_failed,
        subst (λ x. Replicate [] c.in_progress log x.in_progress end) same
            (subst (Replicate [] c.in_progress log c.in_progress) over finished),
      )
  check_indices-Loops (index ∷ indices) c c' log end h none_failed =
      let (d, first, last) = >>=-eq-ok _ _ log h in
      check_index-Loops index indices c d c' log _ end first
        (check_indices-Loops indices d c' _ end last none_failed)

  -- What a passed check has seen between `log` and `end`: the leader checkpoints of the indices that
  -- lagged behind in the first loop, which ended at `mid`, and after it a last round of reads of these.
  abbrev pub Passed : List String → List Event → List Event → Type 0
  Passed indices log end =
      (behind : Dict ℤ) × (mid last later : List Event) × Replicate indices [] log behind mid
      × (last ≡ mid ++ later)
      × CaughtUp behind last end

  -- If the replication check succeeds, then each index that matches the pattern was read and is
  -- SYNCING or BOOTSTRAPPING, and in the round of reads with which the check ends every index that
  -- lagged behind at first had reached the leader checkpoint seen at first.
  pub execute_replication_check-Passed :
      (indices : List String) (log end : List Event)
      → execute_replication_check w rm indices log ≡ (ok tt, end)
      → Passed indices log end
  unfolding execute_replication_check Loops
  execute_replication_check-Passed indices log end h =
      let (c, first, last) = >>=-eq-ok _ _ log h in go c _ first (is_empty c.failed) refl last
    where
      start : Collected
      start = record { in_progress = []; failed = [] }

      go :
          (c : Collected) (mid : List Event)
          → check_indices w rm indices start log ≡ (ok c, mid)
          → (b : Bool) → is_empty c.failed ≡ b
          → (if not b
                then raise (message "some replication indices are failed")
                else await_progress w rm replication_attempts_number c.in_progress)
              mid
            ≡ (ok tt, end)
          → Passed indices log end
      go c mid first false some_failed last = absurd (raise-ne-ok _ _ last)
      go c mid first true none_failed last =
          let (from, later, grown, caught) =
            await_progress-CaughtUp replication_attempts_number c.in_progress mid end last in
          (
            c.in_progress,
            mid,
            from,
            later,
            (check_indices-Loops indices start c log mid first none_failed).1,
            grown,
            caught,
          )
