-- ===== src/Adapter/Backup/Curator.antt =====
-- The functions of backup.go that talk to the curator. A list of databases is written into a request
-- by fmt.Sprintf, so the documents here are those of names without a quotation mark.
use qubership_opensearch.Prelude.{
  ℕ, ◌⊎◌, inl, inr, String, Bool, true, false, ◌==◌, ◌<>◌, eqb, leb, ltb, is_empty, Option, none,
  some, List, [], ◌∷◌, ◌++◌, Dict, if◌then◌else◌,
}
use qubership_opensearch.Json.{Json, object, texts, str, text_field, struct, Fields}
use qubership_opensearch.Http.{
  Method, Request, Body, Outcome, failed, broken, answered, World, Error, message, Exec, ok, pure,
  raise, panic, attempt, sent, ◌>>=◌, lift, unmarshal, wrapped,
}

pub record Curator : Type 0 where
  pub url : String
  pub username : String
  pub password : String

abbrev pub backup_not_found : Error
backup_not_found = message "backup not found"

abbrev pub curator_unavailable : Error
curator_unavailable = message "curator return internal server error"

-- The states of a track: "PROCEEDING", "SUCCESS" and "FAIL".
pub data TrackStatus : Type 0 where
  proceeding success fail : TrackStatus

pub data Action : Type 0 where
  backup restore : Action

pub record ActionTrack : Type 0 where
  pub action : Action
  pub local_id : String
  pub status : TrackStatus
  pub track_id : String
  pub changed_name_db : Dict String
  pub track_path : Option String

abbrev pub backup_track : String → TrackStatus → ActionTrack
backup_track id status = record {
  action = backup;
  local_id = id;
  status = status;
  track_id = id;
  changed_name_db = [];
  track_path = none;
}

abbrev pub restore_track : String → TrackStatus → Dict String → ActionTrack
restore_track id status changed = record {
  action = restore;
  local_id = id;
  status = status;
  track_id = id;
  changed_name_db = changed;
  track_path = none;
}

-- `jobStatus.State`; the other fields are not read.
abbrev pub decode_state : Fields → Option String
decode_state fs = text_field "status" fs

unfoldable pub status_of : String → TrackStatus
status_of state =
    if state == "Failed"
    then fail
    else if state == "Successful"
    then success
    else if state == "Queued"
    then proceeding
    else if state == "Processing"
    then proceeding
    else fail

-- strings.Join(dbs, ",")
unfoldable pub join : List String → String
join [] = ""
join (s ∷ ss) = if is_empty ss then s else s <> "," <> join ss

-- namesRegenerateRequestPart
unfoldable pub names_regenerate_part : String → String → Dict Json
names_regenerate_part pattern' replacement =
    if pattern' == ""
    then []
    else ("rename_pattern", str pattern') ∷ ("rename_replacement", str replacement) ∷ []

abbrev restore_fields : String → Json → Dict Json
restore_fields id dbs = ("vault", str id) ∷ ("skip_users_recovery", str "true") ∷ ("dbs", dbs) ∷ []

-- The list of the databases is joined inside one text.
abbrev pub restore_request : List String → String → String → String → Json
restore_request dbs id pattern' replacement =
    object (restore_fields id (texts (join dbs ∷ [])) ++ names_regenerate_part pattern' replacement)

-- A rename is a pair of a name and of its new name.
abbrev renames_of : Dict String → Dict Json
renames_of [] = []
renames_of ((k, v) ∷ d) = (k, str v) ∷ renames_of d

-- prepareChangeNameRequestPart
unfoldable pub change_name_part : Dict String → Dict Json
change_name_part [] = []
change_name_part (r ∷ rs) = ("changeDbNames", object (renames_of (r ∷ rs))) ∷ []

abbrev pub restoration_request : List String → String → Dict String → Json
restoration_request dbs id renames =
    object (restore_fields id (texts dbs) ++ change_name_part renames)

abbrev pub undecoded : Error → Error
undecoded e = wrapped "failed to decode response from JSON" e

unfoldable pub decode_body : Body → Option String
decode_body b = elim b.document [ none ↦ none | some v ↦ struct decode_state v ]

module _ (w : World) (c : Curator) where
  abbrev pub curator_request : Method → String → Option Json → Bool → Request
  curator_request method path payload json_headers = record {
    method = method;
    url = c.url <> "/" <> path;
    payload = payload;
    json_headers = json_headers;
    basic_auth = some (c.username, c.password);
  }

  -- Curator.client.Do
  unfoldable pub curator_do : Method → String → Option Json → Bool → Exec Outcome
  curator_do method path payload json_headers log =
      let request = curator_request method path payload json_headers in
      (ok (w.respond log request), log ++ sent request ∷ [])

  -- What is read of the whole body: a status and a body, or an error.
  unfoldable pub read_all : Outcome → Exec (ℕ × Body)
  read_all (failed e) = raise e
  read_all (broken code e) = raise e
  read_all (answered code b) = pure (code, b)

  -- With no database the body is a nil *strings.Reader, which http.NewRequest asks for its length.
  unfoldable pub collect_backup : List String → Exec String
  collect_backup [] = panic "invalid memory address or nil pointer dereference"
  collect_backup (db ∷ dbs) = do
    outcome ←
        curator_do Method.post "backup"
          (some (object (("allow_eviction", str "False") ∷ ("dbs", texts (db ∷ dbs)) ∷ []))) true
    r ← read_all outcome
    pure r.1.text

  unfoldable pub deleted_of : Outcome → Exec (String × ℕ)
  deleted_of (failed e) = raise e
  deleted_of (broken code e) =
      if eqb code 500
      then raise curator_unavailable
      else if eqb code 404
      then raise backup_not_found
      else raise e
  deleted_of (answered code b) =
      if eqb code 500
      then raise curator_unavailable
      else if eqb code 404
      then raise backup_not_found
      else pure (b.text, code)

  unfoldable pub delete_backup : String → Exec (String × ℕ)
  delete_backup id = do
    outcome ← curator_do Method.post ("evict/" <> id) none false
    deleted_of outcome

  unfoldable pub job_status_of : Outcome → Exec TrackStatus
  job_status_of (failed e) = raise e
  job_status_of (broken code e) =
      if eqb code 404 then raise backup_not_found else raise (undecoded e)
  job_status_of (answered code b) =
      if eqb code 404
      then raise backup_not_found
      else (do state ← lift (undecoded unmarshal) (decode_body b); pure (status_of state))

  unfoldable pub get_job_status : String → Exec TrackStatus
  get_job_status name = do
    outcome ← curator_do Method.get ("jobstatus/" <> name) none false
    job_status_of outcome

  unfoldable pub track_backup : String → Exec ActionTrack
  track_backup id = do status ← get_job_status id; pure (backup_track id status)

  unfoldable pub track_restore : String → Dict String → Exec ActionTrack
  track_restore id changed = do status ← get_job_status id; pure (restore_track id status changed)

  unfoldable pub restore_accepted : Outcome → Exec (Unit {0})
  restore_accepted (failed e) = raise e
  restore_accepted (broken code e) =
      if eqb code 404
      then raise backup_not_found
      else if leb 500 code
      then raise curator_unavailable
      else pure tt
  restore_accepted (answered code b) =
      if eqb code 404
      then raise backup_not_found
      else if leb 500 code
      then raise curator_unavailable
      else pure tt

  unfoldable pub request_restore : List String → String → String → String → Exec (Unit {0})
  request_restore dbs id pattern' replacement = do
    outcome ←
        curator_do Method.post "restore" (some (restore_request dbs id pattern' replacement)) true
    restore_accepted outcome

  -- The status code is not looked at: the body is the track's id.
  unfoldable pub request_restoration : List String → String → Dict String → Exec String
  request_restoration dbs id renames = do
    outcome ← curator_do Method.post "restore" (some (restoration_request dbs id renames)) true
    r ← read_all outcome
    pure r.1.text

-- A response of a handler: its status, and its text or the error whose text it has.
abbrev pub Answer : Type 0
Answer = ℕ × (String ⊎ Error)

unfoldable pub is_not_found : Error → Bool
is_not_found (message text) = text == "backup not found"
is_not_found _ = false

-- DeleteBackupHandler
unfoldable pub delete_answer : (String × ℕ) ⊎ Error → Answer
delete_answer (inr e) = (if is_not_found e then 404 else 500, inr e)
delete_answer (inl (text, status)) = if ltb 200 status then (status, inl text) else (200, inl "")

unfoldable pub delete_backup_handler : World → Curator → String → Exec Answer
delete_backup_handler w c id = do r ← attempt (delete_backup w c id); pure (delete_answer r)
