-- ===== src/Adapter/Metadata.antt =====
-- The metadata of databases in opensearch-dbaas-adapter/basic/basic.go, the index that keeps it, and
-- the list of the databases.
use Prim.Native.Char.{code}
use qubership_opensearch.Prelude.{
  ℕ, ◌⊎◌, inl, inr, String, Bool, true, false, not, ◌&&◌, ◌||◌, ◌==◌, ◌<>◌, eqb, starts_with,
  Option, none, some, List, filter_bool, split, if◌then◌else◌,
}
use qubership_opensearch.Json.{Json, obj, Fields}
use qubership_opensearch.Http.{
  Method, Outcome, failed, broken, answered, World, Error, message, message_status, wrapped, Exec,
  pure, raise, attempt, ◌>>=◌,
}
use qubership_opensearch.Adapter.Transport.{perform}
use qubership_opensearch.Adapter.Resources.{metadata_path, get_metadata}

-- DbaasMetadata
abbrev pub metadata_index : String
metadata_index = "/dbaas_opensearch_metadata"

-- The body is read to its end, and no status code is looked at.
unfoldable pub read_body : (Error → Error) → Outcome → Exec (Unit {0})
read_body wrap (failed e) = raise (wrap e)
read_body wrap (broken code e) = raise e
read_body wrap (answered code b) = pure tt

unfoldable pub is_ok : (Unit {0}) ⊎ Error → Bool
is_ok (inl done) = true
is_ok (inr e) = false

-- `err != nil || source == nil`
unfoldable pub is_absent : Bool ⊎ Error → Bool
is_absent (inl found) = not found
is_absent (inr e) = true

unfoldable pub index_created_of : ℕ → Exec (Unit {0}) → Exec (Unit {0})
index_created_of code refusal = if eqb code 201 || eqb code 200 then pure tt else refusal

-- strings.Split(s, "\n")
abbrev pub lines : String → List String
lines = split 10

module _ (w : World) where
  unfoldable pub create_metadata : String → Option Fields → Exec (Unit {0})
  create_metadata identifier none = pure tt
  create_metadata identifier (some metadata) = do
    outcome ← perform w Method.put (metadata_path identifier) (some (obj metadata)) true
    read_body (wrapped "error occurred during insert metadata") outcome

  -- Whether the metadata had to be created, and was.
  unfoldable pub ensure_metadata : String → Option Fields → Exec Bool
  ensure_metadata name metadata = do
    source ← attempt (get_metadata w name)
    if is_absent source
        then (do created ← attempt (create_metadata name metadata); pure (is_ok created))
        else pure false

  abbrev write_fields : Option Fields → Json
  write_fields none = Json.null
  write_fields (some fs) = obj fs

  unfoldable pub update_metadata : String → Option Fields → Exec (Unit {0})
  update_metadata name metadata = do
    ensured ← ensure_metadata name metadata
    if ensured then pure tt else (do
      outcome ←
          perform w Method.post (metadata_index <> "/_update/" <> name)
            (some (write_fields metadata)) true
      read_body (λ e. e) outcome)

  unfoldable pub status_of : (Unit {0}) ⊎ Error → ℕ
  status_of (inl done) = 200
  status_of (inr e) = 500

  -- UpdateMetadataHandler for a request that decodes: its status.
  unfoldable pub update_metadata_handler : String → Option Fields → Exec ℕ
  update_metadata_handler name metadata = do
    result ← attempt (update_metadata name metadata)
    pure (status_of result)

  abbrev not_checked : Error → Error
  not_checked e = wrapped "failed to check if index exists" e

  unfoldable pub exists_of : Outcome → Exec Bool
  exists_of (failed e) = raise (not_checked e)
  exists_of (broken code e) = pure (eqb code 200)
  exists_of (answered code b) = pure (eqb code 200)

  unfoldable pub index_exists : Exec Bool
  index_exists = do outcome ← perform w Method.head metadata_index none false; exists_of outcome

  -- The error of the creation is overwritten by that of the second check, which is nil.
  unfoldable pub creation_of : Outcome → Exec (Unit {0})
  creation_of (failed e) = do
    found ← index_exists
    if found then pure tt else raise (message "failed to create index")
  creation_of (broken code e) = index_created_of code (raise e)
  creation_of (answered code b) =
      index_created_of code (raise (message_status "index cannot be created because of error" code))

  unfoldable pub ensure_aggregation_index : Exec (Unit {0})
  ensure_aggregation_index = do
    found ← index_exists
    if found
        then pure tt
        else (do outcome ← perform w Method.put metadata_index none false; creation_of outcome)

  unfoldable pub listed : Outcome → Exec (List String)
  listed (failed e) = raise (wrapped "error occurred during retrieving indices list" e)
  listed (broken code e) = raise (wrapped "error occurred during retrieving indices list" e)
  listed (answered code b) =
      pure (filter_bool (λ index. not (index == "") && not (starts_with index ".")) (lines b.text))

  unfoldable pub list_databases : Exec (List String)
  list_databases = do
    outcome ← perform w Method.get "/_cat/indices?h=index" none false
    listed outcome
