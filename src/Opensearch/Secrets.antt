-- ===== src/Opensearch/Secrets.antt =====
-- The secrets in controllers/opensearchservice_reconciler.go, and util/hash.go.
use qubership_opensearch.Prelude.{
  ◌⊎◌, inl, inr, String, not, ◌&&◌, ◌==◌, none, some, Dict, lookup, if◌then◌else◌,
}
use qubership_opensearch.Http.{
  World, Error, Body, Credentials, Exec, pure, raise, require_ok, call, update_secret,
  set_credentials, ◌>>=◌, ◌>>◌,
}
use qubership_opensearch.Opensearch.{Kube}

abbrev pub no_credentials : Credentials
no_credentials = record { username = ""; password = "" }

-- string(secret.Data[key])
unfoldable pub text_of : String → Dict Body → String
text_of key content = elim (lookup key content) [ none ↦ "" | some b ↦ b.text ]

unfoldable pub credentials_of : Dict Body ⊎ Error → Credentials
credentials_of (inr e) = no_credentials
credentials_of (inl content) =
    if not (text_of "username" content == "") && not (text_of "password" content == "")
    then record { username = text_of "username" content; password = text_of "password" content }
    else no_credentials

module _ (w : World) (k : Kube) where
  unfoldable pub found : {A : Type 0} → A ⊎ Error → Exec A
  found (inl a) = pure a
  found (inr e) = raise e

  unfoldable pub find_secret : String → Exec (Dict Body)
  find_secret name log = found (k.find_secret log name) log

  -- An error of the read counts as empty credentials.
  unfoldable pub parse_secret_credentials : String → Exec Credentials
  parse_secret_credentials name log = pure (credentials_of (k.find_secret log name)) log

  abbrev pub own_secret : String → Exec (Unit {0})
  own_secret name log = require_ok (k.own log name) log

  unfoldable pub watch_secret : String → Exec (Dict Body)
  watch_secret name = do
    content ← find_secret name
    own_secret name
    call w (update_secret name)
    pure content

  unfoldable pub update_secret_with_credentials : String → Credentials → Exec (Unit {0})
  update_secret_with_credentials name c = do
    content ← find_secret name
    call w (set_credentials name c.username c.password)

  -- The first argument is the hash that is stored.
  unfoldable pub calculate_secret_data_hash : String → String → Exec String
  calculate_secret_data_hash stored name = do
    content ← (if stored == "" then watch_secret name else find_secret name)
    pure (k.hash content)
