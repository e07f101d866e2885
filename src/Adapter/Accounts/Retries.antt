-- ===== src/Adapter/Accounts/Retries.antt =====
-- The retries of a request whose body is a reader.
use qubership_opensearch.Prelude.{
  ℕ, zero, suc, ◌++◌, ◌≡◌, refl, String, true, false, ◌<>◌, ◌||◌, eqb, Option, none, some, List, [],
  ◌∷◌,
}
use qubership_opensearch.Json.{Json}
use qubership_opensearch.Http.{Method, Request, Event, sent, Body, World, answered, ok, pure, ◌>>=◌}
use qubership_opensearch.Http.Poll.{poll_immediate}
use qubership_opensearch.Adapter.Transport.{perform, request_to}
use qubership_opensearch.Adapter.Users.{users_path, write_content}
use qubership_opensearch.Adapter.Accounts.{created, content_of, create_user}

module _ (w : World) (username password prefix role_type : String) (log : List Event) where
  abbrev pub creation : Option Json → Request
  creation payload = request_to Method.put (users_path <> "/" <> username) payload true

  abbrev pub content : Option Json
  content = some (write_content (content_of password prefix role_type))

  abbrev pub after_first : List Event
  after_first = log ++ sent (creation content) ∷ []

  -- Where OpenSearch does not accept the first request for a new user, the second one has no content; if
  -- that is accepted, the creation succeeds.
  pub retried_without_content :
      (attempts code code' : ℕ) (b b' : Body)
      → w.respond log (creation content) ≡ answered code b
      → (eqb code 200 || eqb code 201) ≡ false
      → w.respond after_first (creation none) ≡ answered code' b'
      → (eqb code' 200 || eqb code' 201) ≡ true
      → create_user w (suc attempts) username password prefix role_type log
        ≡ (ok tt, after_first ++ sent (creation none) ∷ [])
  unfolding create_user poll_immediate created perform pure ◌>>=◌
  retried_without_content zero code code' b b' first bad second good =
      rw (first, bad, second, good) refl
  retried_without_content (suc attempts) code code' b b' first bad second good =
      rw (first, bad, second, good) refl
