-- ===== src/Adapter/Resources.antt =====
-- The reads and the deletions of single resources in opensearch-dbaas-adapter/basic/basic.go and
-- basic/user.go. A path is what the OpenSearch client makes of the request.
use qubership_opensearch.Prelude.{
  String, Bool, true, false, ◌<>◌, eqb, starts_with, Option, none, some, List, [], ◌∷◌, Dict,
  filter_bool, is_some, keys, lookup, if◌then◌else◌,
}
use qubership_opensearch.Json.{
  Json, null, bool, Fields, struct, get_field, text_field, decode_text, decode_list, decode_map,
  decode_any,
}
use qubership_opensearch.Http.{
  Method, Outcome, failed, broken, answered, World, Error, message, wrapped, Exec, pure, raise,
  panic, ◌>>=◌,
}
use qubership_opensearch.Adapter.Transport.{perform, process_body, do_request}
use qubership_opensearch.Adapter.Users.{users_path}

infixl 5 ◌>>=?◌
abbrev ◌>>=?◌ {ℓ κ} : {A : Type ℓ} {B : Type κ} → Option A → (A → Option B) → Option B
none >>=? f = none
some a >>=? f = f a

-- `interface{}`: nil, for `null` or no value at all, or a value.
unfoldable pub is_value : Json → Bool
is_value null = false
is_value _ = true

unfoldable pub has_first : Dict Json → Bool
has_first [] = false
has_first ((k, v) ∷ d) = is_value v

-- User in basic/user.go.
pub record User : Type 0 where
  pub attributes : Dict String
  pub hash : String
  pub roles : List String

unfoldable pub decode_user : Fields → Option User
decode_user fs = get_field (decode_map decode_text) [] "attributes" fs >>=? λ attributes.
    text_field "hash" fs >>=? λ hash.
    get_field (decode_list decode_text) [] "backend_roles" fs >>=? λ roles.
    some (record { attributes = attributes; hash = hash; roles = roles })

-- The first user of a map, or one without anything.
unfoldable pub first_user : Dict User → User
first_user [] = record { attributes = []; hash = ""; roles = [] }
first_user ((k, u) ∷ d) = u

unfoldable pub decode_index_template : Fields → Option (Unit {0})
decode_index_template fs = text_field "name" fs >>=? λ name. some tt

unfoldable pub decode_flag : Json → Option Bool
decode_flag null = some false
decode_flag (bool b) = some b
decode_flag _ = none

-- Metadata: its source, where the document was found and has one.
unfoldable pub decode_metadata : Fields → Option Bool
decode_metadata fs = get_field decode_flag false "found" fs >>=? λ found.
    get_field (λ v. decode_map decode_any v >>=? λ d. some (is_value v)) false "_source" fs
    >>=? λ source. some (if found then source else false)

-- The tests on the status that the reads of a resource share: 200, 404 and the rest. A resource that is
-- missing has a value of its own.
unfoldable pub found_of : {A : Type 0} → (Error → Error) → Error → A → Exec A → Outcome → Exec A
found_of wrap e missing read (failed d) = raise (wrap d)
found_of wrap e missing read (broken code d) =
    if eqb code 200 then read else if eqb code 404 then pure missing else raise e
found_of wrap e missing read (answered code b) =
    if eqb code 200 then read else if eqb code 404 then pure missing else raise e

-- templates["index_templates"][0]
unfoldable pub first_template : Dict (List (Unit {0})) → Exec Bool
first_template d = elim (lookup "index_templates" d) [
  | none ↦ panic "index out of range"
  | some ts ↦ elim ts [ [] ↦ panic "index out of range" | t ∷ rest ↦ pure true ]
]

abbrev pub metadata_path : String → String
metadata_path name = "/dbaas_opensearch_metadata/_doc/" <> name

module _ (w : World) where
  unfoldable pub get_database : String → Exec Bool
  get_database name = do
    outcome ← perform w Method.get ("/" <> name) none false
    found_of (wrapped "failed to receive index") (message "during receiving index error occurred")
        false
        (do indices ← process_body (decode_map decode_any) [] outcome; pure (has_first indices))
        outcome

  unfoldable pub get_user : String → Exec (Option User)
  get_user name = do
    outcome ← perform w Method.get (users_path <> "/" <> name) none false
    found_of (wrapped "failed to receive user") (message "during receiving user error occurred")
        none
        (do
          users ← process_body (decode_map (struct decode_user)) [] outcome
          pure (some (first_user users)))
        outcome

  -- `user == nil`, turned round
  abbrev pub user_exists : String → Exec Bool
  user_exists name = do user ← get_user name; pure (is_some user)

  unfoldable pub get_template : String → Exec Bool
  get_template name = do
    outcome ← perform w Method.get ("/_template/" <> name) none false
    found_of (λ e. e) (message "during receiving template error occurred") false
        (do ts ← process_body (decode_map decode_any) [] outcome; pure (has_first ts)) outcome

  unfoldable pub get_index_template : String → Exec Bool
  get_index_template name = do
    outcome ← perform w Method.get ("/_index_template/" <> name) none false
    found_of (λ e. e) (message "during receivingindex  template error occurred") false
        (do
          ts ← process_body (decode_map (decode_list (struct decode_index_template))) [] outcome
          first_template ts)
        outcome

  -- A pointer to the alias, which is not nil even where there is none.
  unfoldable pub get_alias : String → Exec Bool
  get_alias name = do
    outcome ← perform w Method.get ("/_alias/" <> name) none false
    found_of (λ e. e) (message "during receiving alias error occurred") false
        (do aliases ← process_body (decode_map (decode_map decode_any)) [] outcome; pure true)
        outcome

  -- GetMetadata, which looks at no status code.
  unfoldable pub get_metadata : String → Exec Bool
  get_metadata name = do_request w (metadata_path name) (struct decode_metadata) false

  -- The names of the users that begin with the prefix. The error is nil for a 404.
  unfoldable pub users_by_prefix_of : String → Outcome → Exec (List String)
  users_by_prefix_of prefix (failed e) = raise (wrapped "failed to receive users" e)
  users_by_prefix_of prefix (broken code e) =
      if eqb code 200
      then raise e
      else if eqb code 404
      then pure []
      else raise (message "during receiving users by prefix error occurred")
  users_by_prefix_of prefix (answered code b) =
      if eqb code 200
      then (do
        users ← process_body (decode_map (struct decode_user)) [] (answered code b)
        pure (filter_bool (λ name. starts_with name prefix) (keys users)))
      else if eqb code 404
      then pure []
      else raise (message "during receiving users by prefix error occurred")

  unfoldable pub get_users_by_prefix : String → Exec (List String)
  get_users_by_prefix prefix = do
    outcome ← perform w Method.get users_path none false
    users_by_prefix_of prefix outcome

  -- The deletions read neither the status code nor the body.
  unfoldable pub unread : Outcome → Exec (Unit {0})
  unread (failed e) = raise e
  unread (broken code e) = pure tt
  unread (answered code b) = pure tt

  unfoldable pub send_deletion : String → Exec (Unit {0})
  send_deletion path = do outcome ← perform w Method.delete path none false; unread outcome

  abbrev pub delete_database : String → Exec (Unit {0})
  delete_database name = send_deletion ("/" <> name)

  abbrev pub delete_metadata : String → Exec (Unit {0})
  delete_metadata name = send_deletion (metadata_path name)

  abbrev pub delete_user : String → Exec (Unit {0})
  delete_user name = send_deletion (users_path <> "/" <> name)

  abbrev pub delete_template : String → Exec (Unit {0})
  delete_template name = send_deletion ("/_template/" <> name)

  abbrev pub delete_index_template : String → Exec (Unit {0})
  delete_index_template name = send_deletion ("/_index_template/" <> name)

  abbrev pub delete_alias : String → Exec (Unit {0})
  delete_alias name = send_deletion ("/" <> name <> "/_aliases/" <> name)
