-- ===== src/Opensearch/Snapshots.antt =====
-- The repository of the snapshots in controllers/opensearch_reconciler.go.
pub mod Created
use qubership_opensearch.Prelude.{
  ℕ, zero, suc, ◌⊎◌, inl, inr, String, Bool, true, false, not, ◌&&◌, ◌==◌, ◌<>◌, eqb, contains,
  is_some, Option, none, some, List, [], ◌∷◌, if◌then◌else◌,
}
use qubership_opensearch.Json.{Json, null, bool, str, object}
use qubership_opensearch.Http.{
  Event, Method, World, Error, message_status, RestClient, Reply, send_request,
  send_request_with_status_code_check, Exec, pure, raise, attempt, sleep, ◌>>=◌, ◌>>◌,
}
use qubership_opensearch.Opensearch.{Kube}
use qubership_opensearch.Opensearch.Secrets.{text_of}
use qubership_opensearch.Opensearch.Settings.{update_settings}

pub record S3 : Type 0 where
  pub enabled : Bool
  pub path_style_access : Bool
  pub url : String
  pub bucket : String
  pub base_path : String
  pub region : String
  pub secret_name : String
  pub gcs_enabled : Bool

pub record Snapshots : Type 0 where
  pub repository_name : String
  pub s3 : Option S3

abbrev body_of : String → Json → Json
body_of kind settings = object (("type", str kind) ∷ ("settings", settings) ∷ [])

abbrev fs_body : Json
fs_body =
    body_of "fs"
      (object (("location", str "/usr/share/opensearch/snapshots") ∷ ("compress", bool true) ∷ []))

abbrev gcs_body : S3 → Json
gcs_body s = body_of "gcs" (object (("bucket", str s.bucket) ∷ ("client", str "default") ∷ []))

-- strconv.FormatBool
abbrev format_bool : Bool → String
format_bool b = if b then "true" else "false"

abbrev s3_body : S3 → String × String → Json
s3_body s (key, secret) = body_of "s3" (
    object (
      ("base_path", str s.base_path)
      ∷ ("bucket", str s.bucket)
      ∷ ("region", str s.region)
      ∷ ("endpoint", str s.url)
      ∷ ("protocol", str "http")
      ∷ ("access_key", str key)
      ∷ ("secret_key", str secret)
      ∷ ("compress", bool true)
      ∷ ("path_style_access", str (format_bool s.path_style_access))
      ∷ []))

module _ (w : World) (k : Kube) where
  unfoldable pub get_s3_credentials : S3 → List Event → String × String
  get_s3_credentials s log = elim (k.find_secret log s.secret_name) [
    | inl content ↦ (text_of "s3-key-id" content, text_of "s3-key-secret" content)
    | inr e ↦ ("", "")
  ]

  unfoldable pub get_snapshots_repository_body : Snapshots → List Event → Json
  get_snapshots_repository_body r log = elim r.s3 [
    | none ↦ fs_body
    | some s ↦
        if s.gcs_enabled
        then gcs_body s
        else if s.enabled
        then s3_body s (get_s3_credentials s log)
        else fs_body
  ]

  module _ (rc : RestClient) where
    unfoldable pub is_missing : Reply → Bool
    is_missing reply =
        not (is_some reply.error)
        && eqb reply.status_code 404
        && contains reply.body.text "repository_missing_exception"

    -- Its error is only logged.
    unfoldable pub delete_snapshots_repository : String → Exec (Unit {0})
    delete_snapshots_repository path = do
      r ← attempt (send_request_with_status_code_check w rc Method.delete path none)
      pure tt

    unfoldable pub is_created : Reply → Bool
    is_created reply = not (is_some reply.error) && eqb reply.status_code 200

    -- The loop, with the status of the attempt before.
    unfoldable pub try_repository : ℕ → ℕ → String → Json → Exec (Unit {0})
    try_repository zero status path body =
        raise (message_status "snapshots repository is not created" status)
    try_repository (suc attempts) status path body = do
      found ← send_request w rc Method.get path none
      if is_missing found then delete_snapshots_repository path else pure tt
      answer ← send_request w rc Method.put path (some body)
      if is_created answer
          then pure tt
          else (do sleep 5000; try_repository attempts answer.status_code path body)

    unfoldable pub create_snapshots_repository : ℕ → Snapshots → Exec (Unit {0})
    create_snapshots_repository attempts r log =
        try_repository attempts 0 ("_snapshot/" <> r.repository_name)
          (get_snapshots_repository_body r log) log

    unfoldable pub update_compatibility_mode : Bool → Exec (Unit {0})
    update_compatibility_mode enabled = update_settings w rc (
        some (
          object (
            (
              "persistent",
              object (
                  (
                    "compatibility.override_main_response_version",
                    if enabled then bool true else null,
                  )
                  ∷ []),
            )
            ∷ [])))
