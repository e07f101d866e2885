-- ===== src/Opensearch/Credentials.antt =====
-- The change of the administrator's credentials in controllers/opensearch_reconciler.go.
pub mod Order
use qubership_opensearch.Prelude.{
  ℕ, ◌⊎◌, String, Bool, true, false, not, ◌&&◌, ◌||◌, ◌==◌, ◌<>◌, eqb, Option, none, some, [], ◌∷◌,
  if◌then◌else◌,
}
use qubership_opensearch.Json.{Json, str, object, array, texts}
use qubership_opensearch.Http.{
  Method, World, Error, message_texts, RestClient, Reply, Credentials, send_request, Exec, pure,
  raise, attempt, require_ok, ◌>>=◌, ◌>>◌,
}
use qubership_opensearch.Http.Poll.{poll_immediate}
use qubership_opensearch.Opensearch.{Kube}
use qubership_opensearch.Opensearch.Secrets.{update_secret_with_credentials}
use qubership_opensearch.Opensearch.Settings.{is_done}

abbrev pub user_path : String → String
user_path name = "_plugins/_security/api/internalusers/" <> name

-- The program writes the password into the text without an escape.
abbrev pub new_user : String → Json
new_user password = object (
    ("password", str password)
    ∷ ("description", str "Admin user")
    ∷ ("backend_roles", texts ("admin" ∷ []))
    ∷ ("opendistro_security_roles", texts ("all_access" ∷ "manage_snapshots" ∷ []))
    ∷ [])

abbrev new_password : String → Json
new_password password =
    array
      (object (("op", str "add") ∷ ("path", str "/password") ∷ ("value", str password) ∷ []) ∷ [])

abbrev refused : String → Reply → Error
refused text reply = message_texts text (reply.body.text ∷ [])

-- `err == nil`, and a status that is accepted.
unfoldable pub accept : Reply → Bool → String → Exec (Unit {0})
accept reply accepted text = do
  require_ok reply.error
  if accepted then pure tt else raise (refused text reply)

abbrev pub with_credentials : String → Credentials → RestClient
with_credentials url c = record { url = url; credentials = c }

module _ (w : World) (k : Kube) where
  -- With an empty name or password nothing is created, and there is no error.
  unfoldable pub create_new_user : String → String → RestClient → Exec (Unit {0})
  create_new_user username password rc = if username == "" || password == "" then pure tt else (do
    reply ← send_request w rc Method.put (user_path username) (some (new_user password))
    accept reply (eqb reply.status_code 200 || eqb reply.status_code 201)
        "user creation went wrong")

  unfoldable pub change_user_password : String → String → RestClient → Exec (Unit {0})
  change_user_password username password rc =
      if username == "" || password == "" then pure tt else (do
        reply ← send_request w rc Method.patch (user_path username) (some (new_password password))
        accept reply (eqb reply.status_code 200) "user update went wrong")

  unfoldable pub remove_user : String → RestClient → Exec (Unit {0})
  remove_user username rc = if username == "" then pure tt else (do
    reply ← send_request w rc Method.delete (user_path username) none
    accept reply (eqb reply.status_code 200 || eqb reply.status_code 404) "user removal went wrong")

  module _ (attempts : ℕ) (url name : String) where
    abbrev rename : Credentials → Credentials → Exec (Unit {0})
    rename new old = do
      create_new_user new.username new.password (with_credentials url old)
      remove_user old.username (with_credentials url old)

    unfoldable pub change_user : Credentials → Credentials → Exec (Unit {0})
    change_user new old =
        if not (new.username == old.username)
        then rename new old
        else change_user_password new.username new.password (with_credentials url old)

    -- The poll with which the old secret gets the new credentials.
    unfoldable pub store_credentials : Credentials → Exec (Unit {0})
    store_credentials new =
        poll_immediate attempts
          (λ _. do
            r ← attempt (update_secret_with_credentials w k (name <> "-secret-old") new)
            pure (is_done r))
          none

    -- updateCredentials, behind the read of the new credentials: the credentials of its client.
    unfoldable pub update_credentials : Credentials → Credentials → Exec Credentials
    update_credentials new old =
        if not (new.username == old.username) || not (new.password == old.password)
        then (do change_user new old; store_credentials new; pure new)
        else pure old
