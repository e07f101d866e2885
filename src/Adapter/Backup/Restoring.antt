-- ===== src/Adapter/Backup/Restoring.antt =====
-- RestoreBackup of backup.go, with the names of common/naming.go.
use Prim.Native.String.{len}
use qubership_opensearch.Prelude.{
  ℕ, zero, suc, ◌+◌, String, Bool, true, false, ◌<>◌, leb, ltb, is_empty, Option, none, some, List,
  [], ◌∷◌, Dict, insert, if◌then◌else◌,
}
use qubership_opensearch.Http.{
  World, message, message_texts, Exec, pure, raise, ensure, sleep, new_uuid, ◌>>=◌, ◌>>◌,
}
use qubership_opensearch.Adapter.Backup.Curator.{
  Curator, TrackStatus, proceeding, success, fail, request_restore,
}
use qubership_opensearch.Adapter.Backup.Snapshot.{get_actual_indices, track_restore_indices}

-- common.Max
unfoldable pub max : ℕ → ℕ → ℕ
max x y = if ltb y x then x else y

unfoldable pub max_length : List String → ℕ → ℕ
max_length [] m = m
max_length (index ∷ indices) m = max_length indices (max (len index) m)

-- The map that the bulk restore fills.
unfoldable pub prefix_all : String → List String → Dict String → Dict String
prefix_all prefix [] changed = changed
prefix_all prefix (index ∷ indices) changed =
    prefix_all prefix indices (insert index (prefix <> index) changed)

abbrev pub name_limit : ℕ
name_limit = 255

module _ (w : World) where
  -- NameIndex
  unfoldable pub name_index : Exec String
  name_index = do id ← new_uuid w; pure ("dbaas_" <> id)

  module _ (c : Curator) (id repo : String) where
    -- The loop TrackLoop with that many tries left, and the status that the last try has seen.
    unfoldable pub track_loop : ℕ → String → Option TrackStatus → Exec (Option TrackStatus)
    track_loop zero name last = pure last
    track_loop (suc tries) name last = do
      track ← track_restore_indices w id (name ∷ []) repo []
      elim track.status [
        | proceeding ↦ do sleep 1000; track_loop tries name (some proceeding)
        | success ↦ pure (some success)
        | fail ↦ pure (some fail)
      ]

    unfoldable pub is_success : Option TrackStatus → Bool
    is_success (some success) = true
    is_success (some proceeding) = false
    is_success (some fail) = false
    is_success none = false

    unfoldable pub restore_each : List String → Dict String → Exec (Dict String)
    restore_each [] changed = pure changed
    restore_each (index ∷ indices) changed = do
      new_name ← name_index
      request_restore w c (index ∷ []) id index new_name
      status ← track_loop 120 new_name none
      ensure (is_success status) (message_texts "failed to restore" (index ∷ new_name ∷ []))
      restore_each indices (insert index new_name changed)

    unfoldable pub restore_bulk : String → List String → Exec (Dict String)
    restore_bulk prefix indices = do
      request_restore w c indices id ".+" (prefix <> "$0")
      pure (prefix_all prefix indices [])

    unfoldable pub restore_renamed : Exec (Dict String)
    restore_renamed = do
      indices ← get_actual_indices w id repo []
      name ← name_index
      let prefix = name <> "_"
      if leb name_limit (len prefix + max_length indices 0)
          then restore_each indices []
          else restore_bulk prefix indices

    -- The map is nil where the names are kept.
    unfoldable pub restore_backup : List String → Bool → Exec (Dict String)
    restore_backup dbs regenerate_names =
        if is_empty dbs
        then raise (message "database prefixes to restore are not specified")
        else if regenerate_names
        then restore_renamed
        else (do request_restore w c dbs id "" ""; pure [])
