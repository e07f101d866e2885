-- ===== src/Adapter/Deletion/Prefixes.antt =====
-- The resources that the prefixes of a bulk drop stand for.
use qubership_opensearch.Prelude.{
  ◌⊎◌, inl, inr, ◌≡◌, refl, sym, ap, subst, ◌∙◌, String, true, false, Bool-cases, ◌==◌, ◌<>◌,
  starts_with, Option, none, some, List, [], ◌∷◌, ◌++◌, filter_bool, keys, eqb, if◌then◌else◌,
  arith, map,
}
use qubership_opensearch.Json.{Json, decode_map, struct}
use qubership_opensearch.Http.{
  Method, Request, World, Outcome, failed, broken, answered, Event, sent, Error, ok, unmarshal,
  pure, raise, lift, attempt, attempted, unmarshal_to, ◌>>=◌,
}
use qubership_opensearch.Http.Success.{>>=-eq-ok, pure-eq-ok}
use qubership_opensearch.Adapter.Transport.{perform, process_body}
use qubership_opensearch.Adapter.Resources.{
  User, decode_user, get_users_by_prefix, users_by_prefix_of,
}
use qubership_opensearch.Adapter.Deletion.{
  Resource, resource, ApiVersion, v1, v2, of_prefix, users_of, expand, expand_all,
}

-- The request for all users.
abbrev pub users_request : Request
users_request = record {
  method = Method.get;
  url = "/_plugins/_security/api/internalusers";
  payload = none;
  json_headers = false;
  basic_auth = none;
}

-- The names of the users with the prefix that an answer lists: none, if it does not have the status 200
-- with a list of users.
abbrev pub listed : String → Option (List (String × User)) → List String
listed prefix none = []
listed prefix (some users) = filter_bool (λ name. starts_with name prefix) (keys users)

abbrev pub listed_in : String → Option Json → List String
listed_in prefix none = []
listed_in prefix (some doc) = listed prefix (decode_map (struct decode_user) doc)

abbrev pub names_in : String → Outcome → List String
names_in prefix (failed e) = []
names_in prefix (broken code e) = []
names_in prefix (answered code b) =
    if eqb code 200 then (if b.text == "" then [] else listed_in prefix b.document) else []

abbrev pub users_named : List String → List Resource
users_named names = map (λ name. resource "user" name) names

-- What a prefix stands for in both versions.
abbrev pub indices_of : String → List Resource
indices_of prefix =
    resource "index" (prefix <> "*")
    ∷ resource "metadataDocument" prefix
    ∷ resource "template" (prefix <> "*")
    ∷ resource "indexTemplate" (prefix <> "*")
    ∷ resource "alias" (prefix <> "*")
    ∷ []

-- What the resources of a request stand for besides themselves, where the prefixes among them are looked
-- up one after another between two logs: in version 1 a prefix stands for one user of its name, and in
-- version 2 for every user whose name begins with it.
pub data StandFor (w : World) (version : ApiVersion)
    : List Resource → List Resource → List Event → List Event → Type 0 where
  over : {log : List Event} → StandFor w version [] [] log log
  other :
      {r : Resource} {rs more : List Resource} {log end : List Event}
      → (r.kind == "resourcePrefix") ≡ false
      → StandFor w version rs more log end
      → StandFor w version (r ∷ rs) more log end
  one_user :
      {r : Resource} {rs more : List Resource} {log end : List Event}
      → version ≡ v1
      → (r.kind == "resourcePrefix") ≡ true
      → StandFor w version rs more log end
      → StandFor w version (r ∷ rs) ((resource "user" r.name ∷ indices_of r.name) ++ more) log end
  all_users :
      {r : Resource} {rs more : List Resource} {log end : List Event}
      → version ≡ v2
      → (r.kind == "resourcePrefix") ≡ true
      → StandFor w version rs more (log ++ sent users_request ∷ []) end
      → StandFor w version
          (r ∷ rs)
          ((indices_of r.name ++ users_named (names_in r.name (w.respond log users_request)))
            ++ more)
          log
          end

users_of-named : (names : List String) → users_of (inl names) ≡ users_named names
unfolding users_of
users_of-named [] = refl
users_of-named (name ∷ names) = ap (λ rs. resource "user" name ∷ rs) (users_of-named names)

module _ (w : World) where
  decoded_users :
      (prefix : String) (users : Option (List (String × User))) (log l : List Event)
      (u : List String ⊎ Error)
      → attempt
          (lift unmarshal users >>= λ users.
            pure (filter_bool (λ name. starts_with name prefix) (keys users)))
          log
        ≡ (ok u, l)
      → (log ≡ l) × (users_of u ≡ users_named (listed prefix users))
  unfolding users_of attempt attempted lift pure ◌>>=◌
  decoded_users prefix none log l u h = ground arith
  decoded_users prefix (some users) log l u h =
      (cc h, cc (h, users_of-named (listed prefix (some users))))

  read_document :
      (prefix : String) (o : Option Json) (log l : List Event) (u : List String ⊎ Error)
      → attempt
          (lift unmarshal (elim o [ none ↦ none | some v ↦ decode_map (struct decode_user) v ])
            >>= λ users. pure (filter_bool (λ name. starts_with name prefix) (keys users)))
          log
        ≡ (ok u, l)
      → (log ≡ l) × (users_of u ≡ users_named (listed_in prefix o))
  read_document prefix none log l u h = decoded_users prefix none log l u h
  read_document prefix (some v) log l u h = decoded_users prefix _ log l u h

  read_users :
      (prefix : String) (o : Outcome) (log l : List Event) (u : List String ⊎ Error)
      → attempt (users_by_prefix_of w prefix o) log ≡ (ok u, l)
      → (log ≡ l) × (users_of u ≡ users_named (names_in prefix o))
  unfolding users_by_prefix_of users_of attempt attempted raise pure ◌>>=◌ process_body unmarshal_to
  read_users prefix (failed e) log l u h = ground arith
  read_users prefix (broken code e) log l u h = ground arith
  read_users prefix (answered code b) log l u h = elim (Bool-cases (eqb code 200)) [
    | inr bad ↦ elim (Bool-cases (eqb code 404)) [
      | inl absent ↦ rw bad (cc (rw (bad, absent) at h), cc (rw (bad, absent) at h))
      | inr odd ↦ rw bad (cc (rw (bad, odd) at h), cc (rw (bad, odd) at h))
    ]
    | inl good ↦ elim (Bool-cases (b.text == "")) [
      | inl empty ↦ rw (good, empty) (cc (rw (good, empty) at h), cc (rw (good, empty) at h))
      | inr full ↦ rw (good, full) (read_document prefix b.document log l u (rw (good, full) at h))
    ]
  ]

  get_users :
      (prefix : String) (log l : List Event) (u : List String ⊎ Error)
      → attempt (get_users_by_prefix w prefix) log ≡ (ok u, l)
      → (log ++ sent users_request ∷ [] ≡ l)
        × (users_of u ≡ users_named (names_in prefix (w.respond log users_request)))
  unfolding get_users_by_prefix perform attempt ◌>>=◌
  get_users prefix log l u h = read_users prefix (w.respond log users_request) _ l u h

  -- What one resource adds.
  expanded :
      (version : ApiVersion) (r : Resource) (rs own rest : List Resource) (log mid end : List Event)
      → expand w version r log ≡ (ok own, mid)
      → StandFor w version rs rest mid end
      → StandFor w version (r ∷ rs) (own ++ rest) log end
  unfolding expand of_prefix
  expanded v1 r rs own rest log mid end h stand =
      let (same, done) = pure-eq-ok _ _ h in
      let behind = subst (λ l. StandFor w v1 rs rest l end) (sym done) stand in
      subst (λ x. StandFor w v1 (r ∷ rs) (x ++ rest) log end) same
        (elim (Bool-cases (r.kind == "resourcePrefix")) [
          | inl prefix ↦ rw prefix (one_user refl prefix behind)
          | inr no_prefix ↦ rw no_prefix (other no_prefix behind)
        ])
  expanded v2 r rs own rest log mid end h stand = elim (Bool-cases (r.kind == "resourcePrefix")) [
    | inl prefix ↦
        let (u, first, last) = >>=-eq-ok _ _ log (rw prefix at h) in
        let (asked, named) = get_users r.name log _ u first in
        let (same, done) = pure-eq-ok _ _ last in
        subst (λ x. StandFor w v2 (r ∷ rs) (x ++ rest) log end)
          (ap (λ x. indices_of r.name ++ x) (sym named) ∙ same)
          (all_users refl prefix
            (subst (λ l. StandFor w v2 rs rest l end) (sym (asked ∙ done)) stand))
    | inr no_prefix ↦
        let (same, done) = pure-eq-ok _ _ (rw no_prefix at h) in
        subst (λ x. StandFor w v2 (r ∷ rs) (x ++ rest) log end) same
          (other no_prefix (subst (λ l. StandFor w v2 rs rest l end) (sym done) stand))
  ]

  pub expand_all-StandFor :
      (version : ApiVersion) (rs more : List Resource) (log end : List Event)
      → expand_all w version rs log ≡ (ok more, end)
      → StandFor w version rs more log end
  unfolding expand_all
  expand_all-StandFor version [] more log end h =
      let (same, done) = pure-eq-ok _ _ h in
      subst (λ m. StandFor w version [] m log end) same
        (subst (StandFor w version [] [] log) done over)
  expand_all-StandFor version (r ∷ rs) more log end h =
      let (own, first, rest) = >>=-eq-ok _ _ log h in
      let (others, second, last) = >>=-eq-ok _ _ _ rest in
      let (same, done) = pure-eq-ok _ _ last in
      subst (λ m. StandFor w version (r ∷ rs) m log end) same
        (expanded version r rs own others log _ end first
          (expand_all-StandFor version rs others _ end (second ∙ ap (λ l. (ok others, l)) done)))
