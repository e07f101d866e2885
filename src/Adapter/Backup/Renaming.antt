-- ===== src/Adapter/Backup/Renaming.antt =====
-- ProcessRestorationRequest and checkPrefixUniqueness of backup.go. core.PrepareDatabaseName is a
-- library's: it makes a name of a namespace, a microservice and the time, which is a function of the
-- events here.
use Prim.Native.Char.{code}
use qubership_opensearch.Prelude.{
  ℕ, ◌⊎◌, inl, inr, String, Bool, true, false, not, ◌&&◌, ◌==◌, ◌<>◌, eqb, starts_with, is_empty,
  Option, none, some, List, [], ◌∷◌, ◌++◌, Dict, insert, lookup, any, if◌then◌else◌,
}
use qubership_opensearch.Json.{Fields, get_field, decode_text, decode_map, struct}
use qubership_opensearch.Http.{
  Event, Method, Outcome, failed, broken, answered, World, Error, message, message_texts, wrapped,
  Exec, ok, pure, raise, attempt, sleep, ◌>>=◌, ◌>>◌, unmarshal_to,
}
use qubership_opensearch.Adapter.Transport.{perform}
use qubership_opensearch.Adapter.Users.{users_path}
use qubership_opensearch.Adapter.Backup.Curator.{Curator, request_restoration}

pub record Database : Type 0 where
  pub namespace : String
  pub microservice : String
  pub name : String
  pub prefix : String

-- The attributes of a user are all that is read of it.
abbrev decode_user : Fields → Option (Dict String)
decode_user fs = get_field (decode_map decode_text) [] "attributes" fs

abbrev pub attribute : Dict String → String
attribute attributes = elim (lookup "resource_prefix" attributes) [ none ↦ "" | some v ↦ v ]

-- The user has the prefix, in its name or in its attribute.
unfoldable pub has_prefix : String → String × Dict String → Bool
has_prefix prefix (name, attributes) =
    if starts_with name prefix
    then true
    else not (attribute attributes == "") && starts_with (attribute attributes) prefix

abbrev pub prefix_taken : String → Error
prefix_taken prefix =
    message_texts "provided prefix already exists or a part of another prefix" (prefix ∷ [])

-- The text up to the first colon, and the text behind it.
unfoldable pub before_colon : String → String
before_colon String.[] = ""
before_colon (String.◌∷◌ c s) =
    let rest = before_colon s in if eqb (code c) b':' then "" else String.◌∷◌ c rest

unfoldable pub after_colon : String → String
after_colon String.[] = ""
after_colon (String.◌∷◌ c s) = let rest = after_colon s in if eqb (code c) b':' then s else rest

-- strings.Split(pair, ":"): its first two parts.
unfoldable pub pair_of : String → String × String
unfolding before_colon after_colon
pair_of pair = (before_colon pair, before_colon (after_colon pair))

unfoldable pub pairs_of : List String → Dict String
pairs_of [] = []
pairs_of (r ∷ rs) = pair_of r ∷ pairs_of rs

-- The map of the renames, filled from the first to the last.
unfoldable pub changed_names : Dict String → Dict String → Dict String
changed_names [] changed = changed
changed_names ((k, v) ∷ pairs) changed = changed_names pairs (insert k v changed)

-- What the loop over the databases has collected.
pub record Renames : Type 0 where
  pub renames : List String
  pub prefixes : List String

module _ (w : World) where
  -- No body and a failed read are told apart by ProcessBody.
  unfoldable pub users_of : Outcome → Exec (Dict (Dict String))
  users_of (failed e) = raise e
  users_of (broken code e) = raise e
  users_of (answered code b) =
      if b.text == "" then pure [] else unmarshal_to (decode_map (struct decode_user)) b

  unfoldable pub uniqueness_of : String → Outcome → Exec Bool
  uniqueness_of prefix (failed e) = raise (wrapped "failed to receive users" e)
  uniqueness_of prefix (broken code e) = if eqb code 200 then raise e else pure true
  uniqueness_of prefix (answered code b) =
      if eqb code 200
      then (do
        users ← users_of (answered code b)
        if any (has_prefix prefix) users then raise (prefix_taken prefix) else pure true)
      else pure true

  -- The result is true where the error is nil, and false where it is not.
  unfoldable pub check_prefix_uniqueness : String → Exec Bool
  check_prefix_uniqueness prefix = do
    outcome ← perform w Method.get users_path none false
    uniqueness_of prefix outcome

  module _ (prepare : List Event → String → String → ℕ → String ⊎ Error) where
    unfoldable pub prepare_name : Database → Exec (String ⊎ Error)
    prepare_name db log = (ok (prepare log db.namespace db.microservice 64), log)

    unfoldable pub text_or_empty : String ⊎ Error → String
    text_or_empty (inl s) = s
    text_or_empty (inr e) = ""

    unfoldable pub named : Database → Renames → String ⊎ Error → Exec Renames
    named db r (inr e) = raise e
    named db r (inl prefix) = pure (record {
      renames = r.renames ++ (db.name <> ":" <> prefix) ∷ [];
      prefixes = prefix ∷ r.prefixes;
    })

    -- The name is made anew if it was made in this loop already.
    unfoldable pub generate_rename : Database → Renames → Exec Renames
    generate_rename db r = do
      first ← prepare_name db
      if any (λ p. p == text_or_empty first) r.prefixes
          then (do sleep 1; second ← prepare_name db; named db r second)
          else named db r first

    -- The error of the check is dropped with its result: `if ok, err := …; ok { … }`.
    unfoldable pub checked_rename : Database → Renames → Bool ⊎ Error → Renames
    checked_rename db r (inl unique) =
        if unique then record r { renames = r.renames ++ (db.name <> ":" <> db.prefix) ∷ [] } else r
    checked_rename db r (inr e) = r

    unfoldable pub rename_database : Database → Renames → Exec Renames
    rename_database db r =
        if not (db.prefix == "")
        then (do
          unique ← attempt (check_prefix_uniqueness db.prefix)
          pure (checked_rename db r unique))
        else generate_rename db r

    unfoldable pub rename_databases : List Database → Renames → Exec Renames
    rename_databases [] r = pure r
    rename_databases (db ∷ dbs) r = do r' ← rename_database db r; rename_databases dbs r'

    unfoldable pub names_of : List Database → List String
    names_of [] = []
    names_of (db ∷ dbs) = db.name ∷ names_of dbs

    abbrev no_renames : Renames
    no_renames = record { renames = []; prefixes = [] }

    unfoldable pub renames_for : List Database → Bool → Exec Renames
    renames_for dbs regenerate_names =
        if regenerate_names then rename_databases dbs no_renames else pure no_renames

    -- The map of the changed names, and the id of the track.
    unfoldable pub process_restoration_request :
        Curator → String → List Database → Bool → Exec (Dict String × String)
    process_restoration_request c id dbs regenerate_names =
        if is_empty dbs then raise (message "database to restore are not specified") else (do
          r ← renames_for dbs regenerate_names
          let pairs = pairs_of r.renames
          track ← request_restoration w c (names_of dbs) id pairs
          pure (changed_names pairs [], track))
