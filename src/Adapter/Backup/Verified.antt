-- ===== src/Adapter/Backup/Verified.antt =====
-- What a restore that is reported as a success has been seen to be.
use qubership_opensearch.Prelude.{
  ◌⊎◌, inl, inr, ◌≡◌, refl, String, Bool, true, false, Option, none, some, List, [], ◌∷◌, Dict, All,
}
use qubership_opensearch.Http.{Error}
use qubership_opensearch.Adapter.Backup.Curator.{success}
use qubership_opensearch.Adapter.Backup.Snapshot.{
  Shard, is_from, is_done, track_shards, track_info, restore_status,
}

module _ (id repo : String) where
  -- A shard that is restored from the snapshot is done.
  abbrev pub IsRestored : Shard → Type 0
  IsRestored s = is_from id repo s ≡ true → is_done s ≡ true

  -- One of the shards is restored from the snapshot.
  abbrev pub SomeFrom : List Shard → Type 0
  SomeFrom [] = ⊥
  SomeFrom (s ∷ ss) = (is_from id repo s ≡ true) ⊎ SomeFrom ss

  abbrev pub SomeIndex : Dict (List Shard) → Type 0
  SomeIndex [] = ⊥
  SomeIndex ((index, shards) ∷ info) = SomeFrom shards ⊎ SomeIndex info

  abbrev pub AllRestored : Dict (List Shard) → Type 0
  AllRestored info = All (λ (p : String × List Shard). All IsRestored p.1) info

  track_shards-some :
      (ss : List Shard) (found found' : Bool)
      → track_shards id repo ss found ≡ some found'
      → All IsRestored ss × (found' ≡ true → (found ≡ true) ⊎ SomeFrom ss)
  unfolding track_shards
  track_shards-some [] found found' h = (tt, λ e. inl (cc (h, e)))
  track_shards-some (s ∷ ss) found found' h =
      go (is_from id repo s) refl (is_done s) refl (track_shards-some ss true found')
        (track_shards-some ss found found')
    where
      or_later : (found ≡ true) ⊎ SomeFrom ss → (found ≡ true) ⊎ SomeFrom (s ∷ ss)
      or_later (inl e) = inl e
      or_later (inr later) = inr (inr later)

      go :
          (b : Bool)
          → is_from id repo s ≡ b
          → (d : Bool) → is_done s ≡ d
          → (track_shards id repo ss true ≡ some found'
              → All IsRestored ss × (found' ≡ true → (true ≡ true) ⊎ SomeFrom ss))
          → (track_shards id repo ss found ≡ some found'
              → All IsRestored ss × (found' ≡ true → (found ≡ true) ⊎ SomeFrom ss))
          → All IsRestored (s ∷ ss) × (found' ≡ true → (found ≡ true) ⊎ SomeFrom (s ∷ ss))
      go false other d fine seen skipped =
          let (rest, some_rest) = skipped (rw other at h) in
          (((λ e. cc (other, e)), rest), (λ e. or_later (some_rest e)))
      go true here true fine seen skipped =
          let (rest, _) = seen (rw (here, fine) at h) in
          (((λ e. fine), rest), (λ e. inr (inl here)))
      go true here false unfinished seen skipped = cc (rw (here, unfinished) at h)

  track_info-some :
      (info : Dict (List Shard)) (found found' : Bool)
      → track_info id repo info found ≡ some found'
      → AllRestored info × (found' ≡ true → (found ≡ true) ⊎ SomeIndex info)
  unfolding track_info
  track_info-some [] found found' h = (tt, λ e. inl (cc (h, e)))
  track_info-some ((index, shards) ∷ info) found found' h =
      go (track_shards id repo shards found) refl (λ b. track_info-some info b found')
    where
      join :
          (middle : Bool)
          → (middle ≡ true → (found ≡ true) ⊎ SomeFrom shards)
          → (middle ≡ true) ⊎ SomeIndex info
          → (found ≡ true) ⊎ SomeIndex ((index, shards) ∷ info)
      join middle first (inr later) = inr (inr later)
      join middle first (inl e) = elim (first e) [ inl f ↦ inl f | inr x ↦ inr (inl x) ]

      go :
          (r : Option Bool)
          → track_shards id repo shards found ≡ r
          → ((b : Bool)
              → track_info id repo info b ≡ some found'
              → AllRestored info × (found' ≡ true → (b ≡ true) ⊎ SomeIndex info))
          → AllRestored ((index, shards) ∷ info)
            × (found' ≡ true → (found ≡ true) ⊎ SomeIndex ((index, shards) ∷ info))
      go none stopped again = cc (rw (stopped, track_info) at h)
      go (some b) went again =
          let (first, some_first) = track_shards-some shards found b went in
          let (rest, some_rest) = again b (rw (went, track_info) at h) in
          ((first, rest), λ e. join b some_first (some_rest e))

  -- A restore is reported as a success only if the recoveries could be read, at least one of their
  -- shards is restored from that snapshot of that repository, and every such shard is done.
  pub restore_status-success :
      (r : Dict (List Shard) ⊎ Error)
      → restore_status id repo r ≡ success
      → (info : Dict (List Shard)) × (r ≡ inl info) × SomeIndex info × AllRestored info
  unfolding restore_status
  restore_status-success (inr e) h = cc h
  restore_status-success (inl info) h = go (track_info id repo info false) refl
    where
      none_found : (false ≡ true) ⊎ SomeIndex info → SomeIndex info
      none_found (inl e) = cc e
      none_found (inr x) = x

      go :
          (o : Option Bool)
          → track_info id repo info false ≡ o
          → (d : Dict (List Shard)) × ◌≡◌ {A = Dict (List Shard) ⊎ Error} (inl info) (inl d)
            × SomeIndex d
            × AllRestored d
      go none stopped = cc (rw (stopped, restore_status) at h)
      go (some false) same = cc (rw (same, restore_status) at h)
      go (some true) same =
          let (restored, found) = track_info-some info false true same in
          (info, refl, none_found (found refl), restored)
