-- ===== src/Adapter/Backup/Snapshot.antt =====
-- Snapshots and recoveries as OpenSearch reports them: getSnapshotStatus,
-- getActualIndices and TrackRestoreIndices of backup.go.
use qubership_opensearch.Prelude.{
  String, Bool, true, false, ◌&&◌, ◌==◌, ◌<>◌, Option, none, some, List, [], ◌∷◌, Dict, lookup,
  keys, if◌then◌else◌, ◌⊎◌, inl, inr,
}
use qubership_opensearch.Json.{
  Json, Fields, struct, get_field, text_field, decode_list, decode_map, decode_any,
}
use qubership_opensearch.Http.{World, Error, message_texts, Exec, pure, raise, attempt, ◌>>=◌}
use qubership_opensearch.Adapter.Transport.{do_request}
use qubership_opensearch.Adapter.Backup.Curator.{
  TrackStatus, proceeding, success, ActionTrack, restore_track, join,
}

infixl 5 ◌>>=?◌
abbrev pub ◌>>=?◌ {ℓ κ} : {A : Type ℓ} {B : Type κ} → Option A → (A → Option B) → Option B
none >>=? f = none
some a >>=? f = f a

pub record SnapshotStatus : Type 0 where
  pub snapshot : String
  pub indices : Dict Json

unfoldable pub decode_snapshot : Fields → Option SnapshotStatus
decode_snapshot fs = text_field "snapshot" fs >>=? λ snapshot.
    get_field (decode_map decode_any) [] "indices" fs >>=? λ indices.
    some (record { snapshot = snapshot; indices = indices })

unfoldable pub decode_snapshots : Fields → Option (List SnapshotStatus)
decode_snapshots fs = get_field (decode_list (struct decode_snapshot)) [] "snapshots" fs

pub record Shard : Type 0 where
  pub stage : String
  pub snapshot : String
  pub repository : String

abbrev decode_source : Fields → Option (String × String)
decode_source fs = text_field "snapshot" fs >>=? λ snapshot.
    text_field "repository" fs >>=? λ repository. some (snapshot, repository)

unfoldable pub decode_shard : Fields → Option Shard
decode_shard fs = text_field "stage" fs >>=? λ stage.
    get_field (struct decode_source) ("", "") "source" fs >>=? λ source.
    some (record { stage = stage; snapshot = source.0; repository = source.1 })

unfoldable pub decode_shards : Fields → Option (List Shard)
decode_shards fs = get_field (decode_list (struct decode_shard)) [] "shards" fs

-- The snapshot of that name.
unfoldable pub find_snapshot : String → List SnapshotStatus → Option SnapshotStatus
find_snapshot name [] = none
find_snapshot name (s ∷ ss) =
    let rest = find_snapshot name ss in if s.snapshot == name then some s else rest

-- `changedNameDb[name]`, or the name where that is empty.
unfoldable pub actual_names : Dict String → List String → List String
actual_names changed [] = []
actual_names changed (name ∷ names) =
    elim (lookup name changed) [ none ↦ name | some new ↦ if new == "" then name else new ]
    ∷ actual_names changed names

-- An empty repository stands for one of the backup's name.
abbrev pub repository_of : String → String → String
repository_of repo id = if repo == "" then id else repo

unfoldable pub is_from : String → String → Shard → Bool
is_from id repo s = s.snapshot == id && s.repository == repo

unfoldable pub is_done : Shard → Bool
is_done s = if s.stage == "DONE" then true else s.stage == "done"

-- The two nested loops. The flag is foundOneDone.
unfoldable pub track_shards : String → String → List Shard → Bool → Option Bool
track_shards id repo [] found = some found
track_shards id repo (s ∷ ss) found =
    let seen = track_shards id repo ss true in
    let skipped = track_shards id repo ss found in
    if is_from id repo s then (if is_done s then seen else none) else skipped

unfoldable pub track_info : String → String → Dict (List Shard) → Bool → Option Bool
track_info id repo [] found = some found
track_info id repo ((index, shards) ∷ info) found = elim (track_shards id repo shards found) [
  | none ↦ none
  | some found' ↦ track_info id repo info found'
]

unfoldable pub restore_status : String → String → Dict (List Shard) ⊎ Error → TrackStatus
restore_status id repo (inr e) = proceeding
restore_status id repo (inl info) = elim (track_info id repo info false) [
  | none ↦ proceeding
  | some found ↦ if found then success else proceeding
]

module _ (w : World) where
  unfoldable pub get_snapshot_status : String → String → Exec SnapshotStatus
  get_snapshot_status name repo = do
    snapshots ←
        do_request w ("/_snapshot/" <> repo <> "/" <> name <> "/_status") (struct decode_snapshots)
          []
    elim (find_snapshot name snapshots) [
      | none ↦ raise (message_texts "failed to find snapshot" (name ∷ repo ∷ []))
      | some s ↦ pure s
    ]

  unfoldable pub found_or_error : String → SnapshotStatus ⊎ Error → Exec SnapshotStatus
  found_or_error id (inl s) = pure s
  found_or_error id (inr e) = raise (Error.wrapped "failed to find snapshot" e)

  unfoldable pub get_actual_indices : String → String → Dict String → Exec (List String)
  get_actual_indices id repo changed = do
    r ← attempt (get_snapshot_status id (repository_of repo id))
    s ← found_or_error id r
    pure (actual_names changed (keys s.indices))

  unfoldable pub track_restore_indices :
      String → List String → String → Dict String → Exec ActionTrack
  track_restore_indices id indices repo changed = do
    info ←
        attempt (
          do_request w ("/" <> join indices <> "/_recovery") (decode_map (struct decode_shards)) [])
    pure (restore_track id (restore_status id (repository_of repo id) info) changed)
