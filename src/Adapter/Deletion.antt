-- ===== src/Adapter/Deletion.antt =====
-- deleteResources of opensearch-dbaas-adapter/basic/basic.go and the handler of a bulk drop.
pub mod Prefixes
pub mod Reports
pub mod Unread
use qubership_opensearch.Prelude.{
  ℕ, ◌⊎◌, inl, inr, String, Bool, true, false, ◌==◌, ◌<>◌, is_empty, Option, none, some, List, [],
  ◌∷◌, ◌++◌, filter_bool, if◌then◌else◌,
}
use qubership_opensearch.Http.{World, Error, Exec, pure, attempt, ◌>>=◌, ◌>>◌}
use qubership_opensearch.Adapter.Resources.{
  get_database, user_exists, get_template, get_index_template, get_alias, get_metadata,
  get_users_by_prefix, delete_database, delete_metadata, delete_user, delete_template,
  delete_index_template, delete_alias,
}

pub record Resource : Type 0 where
  pub kind : String
  pub name : String

-- DeletedStatus and DeletionFailedStatus, the latter with the error whose text is reported.
pub data Status : Type 0 where
  deleted : Status
  delete_failed : Error → Status

-- A resource with the status that the deletion gives it.
pub record Report : Type 0 where
  pub resource : Resource
  pub status : Status

-- ApiV1 and ApiV2, the two versions that the adapter is configured with.
pub data ApiVersion : Type 0 where
  v1 v2 : ApiVersion

abbrev pub resource : String → String → Resource
resource kind name = record { kind = kind; name = name }

-- The resources that a prefix stands for, less the users in version 2.
unfoldable pub of_prefix : ApiVersion → String → List Resource
of_prefix v1 name =
    resource "user" name
    ∷ resource "index" (name <> "*")
    ∷ resource "metadataDocument" name
    ∷ resource "template" (name <> "*")
    ∷ resource "indexTemplate" (name <> "*")
    ∷ resource "alias" (name <> "*")
    ∷ []
of_prefix v2 name =
    resource "index" (name <> "*")
    ∷ resource "metadataDocument" name
    ∷ resource "template" (name <> "*")
    ∷ resource "indexTemplate" (name <> "*")
    ∷ resource "alias" (name <> "*")
    ∷ []

unfoldable pub users_of : List String ⊎ Error → List Resource
users_of (inr e) = []
users_of (inl []) = []
users_of (inl (name ∷ names)) = resource "user" name ∷ users_of (inl names)

unfoldable pub of_kind : String → List Resource → List Resource
of_kind kind rs = filter_bool (λ r. r.kind == kind) rs

unfoldable pub is_failure : Report → Bool
is_failure d = elim d.status [ deleted ↦ false | delete_failed e ↦ true ]

unfoldable pub failures : List Report → List Report
failures ds = filter_bool is_failure ds

-- The response of the handler: its status and the reports that it writes.
unfoldable pub drop_answer : List Report → ℕ × List Report
drop_answer ds = if is_empty (failures ds) then (200, ds) else (500, failures ds)

abbrev report : Resource → Status → Report
report r status = record { resource = r; status = status }

unfoldable pub deletion_report : Resource → (Unit {0}) ⊎ Error → Report
deletion_report r (inl done) = report r deleted
deletion_report r (inr e) = report r (delete_failed e)

-- What follows the read of a resource.
unfoldable pub after_read : Resource → Exec (Unit {0}) → Bool ⊎ Error → Exec Report
after_read r delete (inr e) = pure (report r (delete_failed e))
after_read r delete (inl found) =
    if found
    then (do done ← attempt delete; pure (deletion_report r done))
    else pure (report r deleted)

unfoldable pub drop : Resource → Exec Bool → Exec (Unit {0}) → Exec Report
drop r read delete = do found ← attempt read; after_read r delete found

module _ (w : World) where
  -- A kind that the code does not know is reported as deleted.
  unfoldable pub delete_resource : Resource → Exec Report
  delete_resource r =
      if r.kind == "index"
      then drop r (get_database w r.name) (delete_database w r.name)
      else if r.kind == "metadataDocument"
      then drop r (get_metadata w r.name) (delete_metadata w r.name)
      else if r.kind == "user"
      then drop r (user_exists w r.name) (delete_user w r.name)
      else if r.kind == "template"
      then drop r (get_template w r.name) (delete_template w r.name)
      else if r.kind == "indexTemplate"
      then drop r (get_index_template w r.name) (delete_index_template w r.name)
      else if r.kind == "alias"
      then drop r (get_alias w r.name) (delete_alias w r.name)
      else pure (report r deleted)

  unfoldable pub delete_each : List Resource → Exec (List Report)
  delete_each [] = pure []
  delete_each (r ∷ rs) = do d ← delete_resource r; ds ← delete_each rs; pure (d ∷ ds)

  -- deleteResourcesByKind
  unfoldable pub delete_by_kind : List Resource → String → Exec (List Report)
  delete_by_kind rs kind = delete_each (of_kind kind rs)

  -- The resources of one prefix. An error of the read of the users is only logged.
  unfoldable pub expand : ApiVersion → Resource → Exec (List Resource)
  expand v1 r = pure (if r.kind == "resourcePrefix" then of_prefix v1 r.name else [])
  expand v2 r =
      if r.kind == "resourcePrefix"
      then (do
        users ← attempt (get_users_by_prefix w r.name)
        pure (of_prefix v2 r.name ++ users_of users))
      else pure []

  -- processResourcePrefixKind
  unfoldable pub expand_all : ApiVersion → List Resource → Exec (List Resource)
  expand_all version [] = pure []
  expand_all version (r ∷ rs) = do
    more ← expand version r
    rest ← expand_all version rs
    pure (more ++ rest)

  unfoldable pub delete_resources : ApiVersion → List Resource → Exec (List Report)
  delete_resources version rs = do
    more ← expand_all version rs
    let all = rs ++ more
    users ← delete_by_kind all "user"
    databases ← delete_by_kind all "index"
    metadata ← delete_by_kind all "metadataDocument"
    templates ← delete_by_kind all "template"
    index_templates ← delete_by_kind all "indexTemplate"
    aliases ← delete_by_kind all "alias"
    pure (users ++ databases ++ metadata ++ templates ++ index_templates ++ aliases)

  -- BulkDropResourceHandler for a request that decodes.
  unfoldable pub bulk_drop_resource_handler : ApiVersion → List Resource → Exec (ℕ × List Report)
  bulk_drop_resource_handler version rs = do ds ← delete_resources version rs; pure (drop_answer ds)
