-- ===== src/Adapter/Accounts.antt =====
-- The creation and the update of users in opensearch-dbaas-adapter/basic/user.go, with the provider
-- and its connection properties (basic/basic.go).
pub mod Written
pub mod Retries
use Prim.Native.Char.{code}
use qubership_opensearch.Prelude.{
  ℕ, zero, suc, ◌⊎◌, inl, inr, String, Bool, true, false, not, ◌&&◌, ◌||◌, ◌==◌, ◌<>◌, eqb, Option,
  none, some, List, [], ◌∷◌, ◌++◌, Dict, if◌then◌else◌,
}
use qubership_opensearch.Json.{Json, object, array, str, texts}
use qubership_opensearch.Http.{
  Event, Method, Outcome, failed, broken, answered, World, Error, message, wrapped, Exec, Result,
  ok, err, pure, raise, new_uuid, attempt, ◌>>=◌, ◌>>◌,
}
use qubership_opensearch.Http.Poll.{poll_immediate}
use qubership_opensearch.Adapter.Transport.{perform}
use qubership_opensearch.Adapter.Users.{
  Content, write_content, users_path, get_backend_roles, admin_role_type,
}
use qubership_opensearch.Adapter.Resources.{User, get_user}
use qubership_opensearch.Adapter.Deletion.{Resource, resource, ApiVersion, v1, v2}
use qubership_opensearch.Adapter.Backup.Renaming.{attribute}

-- BaseProvider and the address of its OpenSearch. The generator of passwords is a library's.
pub record BaseProvider : Type 0 where
  pub protocol : String
  pub host : String
  pub port : ℕ
  pub api_version : ApiVersion
  pub generate : List Event → String ⊎ Error

-- ConnectionProperties of common/common.go. The URL is made of the first four.
pub record Connection : Type 0 where
  pub protocol : String
  pub host : String
  pub port : ℕ
  pub db_name : String
  pub username : String
  pub password : String
  pub resource_prefix : String
  pub role : String

abbrev pub get_connection_properties : BaseProvider → String → String → String → Connection
get_connection_properties bp db_name username password = record {
  protocol = bp.protocol;
  host = bp.host;
  port = bp.port;
  db_name = db_name;
  username = username;
  password = password;
  resource_prefix = "";
  role = "";
}

-- GetExtendedConnectionProperties: what is empty stays empty.
abbrev pub get_extended_connection_properties :
    BaseProvider → String → String → String → String → String → Connection
get_extended_connection_properties bp db_name username password prefix role_type =
    record (get_connection_properties bp db_name username password) {
      resource_prefix = prefix;
      role = role_type;
    }

-- strings.ReplaceAll(s, "-", "")
unfoldable pub without_dashes : String → String
without_dashes String.[] = ""
without_dashes (String.◌∷◌ c s) =
    let rest = without_dashes s in if eqb (code c) b'-' then rest else String.◌∷◌ c rest

-- strings.TrimRight(s, "*")
unfoldable pub trim_stars : String → String
trim_stars String.[] = ""
trim_stars (String.◌∷◌ c s) =
    let rest = trim_stars s in if rest == "" && eqb (code c) b'*' then "" else String.◌∷◌ c rest

abbrev is_success : ℕ → Bool
is_success code = eqb code 200 || eqb code 201

-- The condition of createUser: an error of the request ends the poll.
unfoldable pub created : Outcome → Exec Bool
created (failed e) = raise e
created (broken code e) = pure false
created (answered code b) = pure (is_success code)

-- The condition of PatchUser.
unfoldable pub patched : Outcome → Exec Bool
patched (failed e) = pure false
patched (broken code e) = pure false
patched (answered code b) = pure (is_success code)

unfoldable pub content_of : String → String → String → Content
content_of password prefix role_type =
    if prefix == ""
    then record { attributes = []; backend_roles = []; password = password }
    else record {
      attributes = ("resource_prefix", trim_stars prefix) ∷ [];
      backend_roles = get_backend_roles role_type;
      password = password;
    }

abbrev change : String → Json → Json
change path value = object (("op", str "add") ∷ ("path", str path) ∷ ("value", value) ∷ [])

unfoldable pub changes_of : String → String → String → List Json
changes_of password prefix role_type =
    (if password == "" then [] else change "/password" (str password) ∷ [])
    ++ (if prefix == ""
        then []
        else change "/attributes" (object (("resource_prefix", str (trim_stars prefix)) ∷ []))
          ∷ change "/backend_roles" (texts (get_backend_roles role_type))
          ∷ [])

-- What createOrUpdateUser returns.
pub record Account : Type 0 where
  pub username : String
  pub password : String
  pub resources : List Resource

pub record UserCreateRequest : Type 0 where
  pub password : String
  pub db_name : String
  pub role : String

pub record CreatedUser : Type 0 where
  pub connection_properties : Connection
  pub name : String
  pub resources : List Resource

unfoldable pub with_attribute : Connection → Option User → Connection
with_attribute c none = c
with_attribute c (some u) =
    if attribute u.attributes == ""
    then c
    else record c { resource_prefix = attribute u.attributes }

-- GenerateUUID
unfoldable pub generate_uuid : World → Exec String
generate_uuid w = do id ← new_uuid w; pure (without_dashes id)

unfoldable pub name_or_new : World → String → Exec String
name_or_new w name =
    if name == "" then (do id ← generate_uuid w; pure ("dbaas_" <> id)) else pure name

-- The status and the body of a handler that answers 201, or 500 with its error.
unfoldable pub answer_of : {A : Type 0} → A ⊎ Error → ℕ × (A ⊎ Error)
answer_of (inl a) = (201, inl a)
answer_of (inr e) = (500, inr e)

module _ (w : World) (attempts : ℕ) where
  unfoldable pub create_user : String → String → String → String → Exec (Unit {0})
  create_user username password prefix role_type =
      poll_immediate attempts
        (λ payload. do
          outcome ← perform w Method.put (users_path <> "/" <> username) payload true
          created outcome)
        (some (write_content (content_of password prefix role_type)))

  unfoldable pub patch_user : String → String → String → String → Exec (Unit {0})
  patch_user username password prefix role_type =
      if password == "" && prefix == ""
      then pure tt
      else poll_immediate attempts
          (λ payload. do
            outcome ← perform w Method.patch (users_path <> "/" <> username) payload true
            patched outcome)
          (some (array (changes_of password prefix role_type)))

  module _ (bp : BaseProvider) where
    unfoldable pub password_of : String ⊎ Error → Exec String
    password_of (inl password) = pure password
    password_of (inr e) = raise e

    unfoldable pub password_or_new : String → Exec String
    password_or_new password log =
        if password == "" then password_of (bp.generate log) log else pure password log

    unfoldable pub failed_with : String → (Unit {0}) ⊎ Error → Exec (Unit {0})
    failed_with text (inl done) = pure tt
    failed_with text (inr e) = raise (wrapped text e)

    unfoldable pub write_user : String → String → String → String → Option User → Exec (Unit {0})
    write_user username password db_name role_type none = do
      done ← attempt (create_user username password db_name role_type)
      failed_with "during user creation error occurred" done
    write_user username password db_name role_type (some u) = do
      done ← attempt (patch_user username password db_name role_type)
      failed_with "during user update error occurred" done

    unfoldable pub create_or_update_user : String → String → String → String → Exec Account
    create_or_update_user name given db_name role_type = do
      username ← name_or_new w name
      password ← password_or_new given
      user ← get_user w username
      write_user username password db_name role_type user
      pure (record {
        username = username;
        password = password;
        resources = resource "user" username ∷ [];
      })

    unfoldable pub create_user_by_prefix : String → String → String → String → Exec Account
    create_user_by_prefix prefix password db_name role_type = do
      id ← generate_uuid w
      create_or_update_user (prefix <> "_" <> id) password db_name role_type

    abbrev role_or_admin : String → String
    role_or_admin role = if role == "" then admin_role_type else role

    abbrev db_resources : String → List Resource
    db_resources db_name =
        if db_name == ""
        then []
        else resource "metadataDocument" db_name ∷ resource "resourcePrefix" db_name ∷ []

    unfoldable pub ensure_user : String → UserCreateRequest → Exec CreatedUser
    ensure_user name r = do
      account ← create_or_update_user name r.password r.db_name (role_or_admin r.role)
      user ← get_user w account.username
      pure (record {
        connection_properties =
            with_attribute
              (get_extended_connection_properties bp "" account.username account.password ""
                (role_or_admin r.role))
              user;
        name = r.db_name;
        resources = account.resources ++ db_resources r.db_name;
      })

    -- CreateUserHandler for a request that decodes: the status and the body.
    unfoldable pub create_user_handler :
        String → UserCreateRequest → Exec (ℕ × (CreatedUser ⊎ Error))
    create_user_handler name r = do
      username ← name_or_new w name
      result ← attempt (ensure_user username r)
      pure (answer_of result)
