-- ===== src/Adapter/Backup/Handlers.antt =====
-- The handlers of backup.go, and common.ProcessResponseBody. A handler has as its result what it does
-- with the http.ResponseWriter, in order. json.Marshal cannot fail for a track, which is made of
-- texts, so that its branch is left out.
use qubership_opensearch.Prelude.{
  ℕ, ◌⊎◌, inl, inr, String, Bool, false, ◌==◌, ◌<>◌, ltb, Option, some, List, [], ◌∷◌, ◌++◌, Dict,
  if◌then◌else◌, split,
}
use qubership_opensearch.Json.{Fields, text_field, get_field, decode_text, decode_list, struct}
use qubership_opensearch.Http.{
  Event, Body, World, Error, Exec, pure, raise, attempt, ◌>>=◌, unmarshal_to, wrapped,
}
use qubership_opensearch.Adapter.Resources.{decode_flag}
use qubership_opensearch.Adapter.Backup.Curator.{
  Curator, ActionTrack, fail, backup_track, join, is_not_found, collect_backup, track_backup,
  track_restore,
}
use qubership_opensearch.Adapter.Backup.Snapshot.{get_actual_indices, track_restore_indices, ◌>>=?◌}
use qubership_opensearch.Adapter.Backup.Restoring.{restore_backup}
use qubership_opensearch.Adapter.Backup.Renaming.{Database, process_restoration_request}

-- A call of WriteHeader, or of Write with the text of an error or the JSON of a track.
pub data Part : Type 0 where
  header : ℕ → Part
  problem : Error → Part
  tracked : ActionTrack → Part

-- ProcessResponseBody
unfoldable pub process_response_body : Part → ℕ → List Part
process_response_body part status = if ltb 0 status then header status ∷ part ∷ [] else part ∷ []

-- The status that the client sees: that of the first call, where a Write sets 200.
unfoldable pub status_line : List Part → ℕ
status_line [] = 200
status_line (header code ∷ parts) = code
status_line (problem e ∷ parts) = 200
status_line (tracked t ∷ parts) = 200

unfoldable pub failure_status : Error → ℕ
failure_status e = if is_not_found e then 404 else 500

abbrev pub internal_error : Error → List Part
internal_error e = process_response_body (problem e) 500

pub record RestorationRequest : Type 0 where
  pub databases : List Database
  pub regenerate_names : Bool

unfoldable pub decode_database : Fields → Option Database
decode_database fs = text_field "namespace" fs >>=? λ namespace.
    text_field "microservice" fs >>=? λ microservice. text_field "name" fs >>=? λ name.
    text_field "prefix" fs >>=? λ prefix.
    some
      (record { namespace = namespace; microservice = microservice; name = name; prefix = prefix })

unfoldable pub decode_restoration : Fields → Option RestorationRequest
decode_restoration fs =
    get_field (decode_list (struct decode_database)) [] "databases" fs >>=? λ databases.
    get_field decode_flag false "regenerateNames" fs >>=? λ regenerate_names.
    some (record { databases = databases; regenerate_names = regenerate_names })

-- The body of a request, or the error of its read.
unfoldable pub databases_of : Body ⊎ Error → Exec (List String)
databases_of (inr e) = raise e
databases_of (inl b) = unmarshal_to (decode_list decode_text) b

unfoldable pub restoration_of : Body ⊎ Error → Exec RestorationRequest
restoration_of (inr e) = raise e
restoration_of (inl b) = unmarshal_to (struct decode_restoration) b

-- The track that goes with an error is that of a failed backup, for a restore too.
unfoldable pub track_or_failed : String → ActionTrack ⊎ Error → ActionTrack
track_or_failed id (inl t) = t
track_or_failed id (inr e) = backup_track id fail

unfoldable pub created : ActionTrack ⊎ Error → Exec ActionTrack
created (inl t) = pure t
created (inr e) = raise (wrapped "failed to create snapshot, curator return an error" e)

unfoldable pub collect_answer : ActionTrack ⊎ Error → List Part
collect_answer (inl t) = process_response_body (tracked t) 202
collect_answer (inr e) = internal_error e

unfoldable pub track_backup_answer : String → ActionTrack ⊎ Error → List Part
track_backup_answer id (inl t) = process_response_body (tracked t) 0
track_backup_answer id (inr e) =
    if is_not_found e
    then header 404 ∷ process_response_body (tracked (track_or_failed id (inr e))) 0
    else internal_error e

-- What the handler of a restore writes where the restore cannot be tracked; it does not return.
unfoldable pub untracked : ActionTrack ⊎ Error → List Part
untracked (inl t) = []
untracked (inr e) = header 500 ∷ problem e ∷ []

abbrev pub track_path_of : String → String → List String → String
track_path_of base_path id indices =
    base_path <> "/backups/track/restoring/backups/" <> id <> "/indices/" <> join indices

unfoldable pub renamed_answer : String → String → ActionTrack → List String ⊎ Error → List Part
renamed_answer base_path id t (inr e) = internal_error e
renamed_answer base_path id t (inl indices) =
    process_response_body
      (tracked (record t { track_path = some (track_path_of base_path id indices) })) 0

unfoldable pub restoration_answer : ActionTrack ⊎ Error → List Part
restoration_answer (inl t) = process_response_body (tracked t) 0
restoration_answer (inr e) = process_response_body (problem e) (failure_status e)

unfoldable pub track_restore_answer : String → ActionTrack ⊎ Error → List Part
track_restore_answer id (inl t) = process_response_body (tracked t) 0
track_restore_answer id (inr e) =
    header (failure_status e) ∷ process_response_body (tracked (track_or_failed id (inr e))) 0

module _ (w : World) (c : Curator) where
  -- CollectBackupHandler
  unfoldable pub collect_backup_handler : Body ⊎ Error → Exec (List Part)
  collect_backup_handler body = do
    r ← attempt (do
      dbs ← databases_of body
      id ← collect_backup w c dbs
      t ← attempt (track_backup w c id)
      created t)
    pure (collect_answer r)

  -- TrackBackupHandler
  unfoldable pub track_backup_handler : String → Exec (List Part)
  track_backup_handler id = do r ← attempt (track_backup w c id); pure (track_backup_answer id r)

  module _ (repo base_path id : String) where
    unfoldable pub tracked_answer : Bool → Dict String → ActionTrack ⊎ Error → Exec (List Part)
    tracked_answer regenerate_names changed t =
        if regenerate_names
        then (do
          indices ← attempt (get_actual_indices w id repo changed)
          pure (untracked t ++ renamed_answer base_path id (track_or_failed id t) indices))
        else pure (untracked t ++ process_response_body (tracked (track_or_failed id t)) 0)

    unfoldable pub restore_answer : Bool → Dict String ⊎ Error → Exec (List Part)
    restore_answer regenerate_names (inr e) =
        pure (process_response_body (problem e) (failure_status e))
    restore_answer regenerate_names (inl changed) = do
      t ← attempt (track_restore w c id changed)
      tracked_answer regenerate_names changed t

    unfoldable pub restore_decoded : Bool → List String ⊎ Error → Exec (List Part)
    restore_decoded regenerate_names (inr e) = pure (internal_error e)
    restore_decoded regenerate_names (inl dbs) = do
      r ← attempt (restore_backup w c id repo dbs regenerate_names)
      restore_answer regenerate_names r

    -- RestoreBackupHandler, with the value of regenerateNames in the query.
    unfoldable pub restore_backup_handler : String → Body ⊎ Error → Exec (List Part)
    restore_backup_handler query body = do
      dbs ← attempt (databases_of body)
      restore_decoded (query == "true") dbs

  unfoldable pub track_restoration : Dict String × String ⊎ Error → Exec (List Part)
  track_restoration (inr e) = pure (internal_error e)
  track_restoration (inl (changed, track)) = do
    r ← attempt (track_restore w c track changed)
    pure (restoration_answer r)

  module _ (prepare : List Event → String → String → ℕ → String ⊎ Error) where
    -- RestorationBackupHandler
    unfoldable pub restoration_backup_handler : String → Body ⊎ Error → Exec (List Part)
    restoration_backup_handler id body = do
      r ← attempt (do
        request ← restoration_of body
        process_restoration_request w prepare c id request.databases request.regenerate_names)
      track_restoration r

  -- TrackRestoreFromTrackIdHandler
  unfoldable pub track_restore_from_track_id_handler : String → Exec (List Part)
  track_restore_from_track_id_handler id = do
    r ← attempt (track_restore w c id [])
    pure (track_restore_answer id r)

-- TrackRestoreFromIndicesHandler
unfoldable pub track_restore_from_indices_handler :
    World → String → String → String → Exec (List Part)
track_restore_from_indices_handler w repo id line = do
  t ← track_restore_indices w id (split b',' line) repo []
  pure (process_response_body (tracked t) 200)
