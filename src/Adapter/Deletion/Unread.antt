-- ===== src/Adapter/Deletion/Unread.antt =====
-- Answers that a bulk drop does not look at.
use qubership_opensearch.Prelude.{ℕ, ◌≡◌, refl, String, true, false, ◌<>◌, none, List}
use qubership_opensearch.Http.{
  Method, Event, answered, Body, World, Error, ok, err, pure, attempt, attempted, ◌>>=◌,
}
use qubership_opensearch.Adapter.Transport.{perform, request_to}
use qubership_opensearch.Adapter.Resources.{
  get_database, get_users_by_prefix, unread, send_deletion,
}
use qubership_opensearch.Adapter.Deletion.{
  resource, deleted, v2, of_prefix, users_of, deletion_report, after_read, drop, delete_resource,
  expand,
}

module _ (w : World) (name : String) (log log' : List Event) where
  -- An index that is found is reported as deleted whatever status code the answer to its DELETE request
  -- has.
  pub refused_deletion_reported :
      (code : ℕ) (b : Body)
      → get_database w name log ≡ (ok true, log')
      → w.respond log' (request_to Method.delete ("/" <> name) none false) ≡ answered code b
      → (delete_resource w (resource "index" name) log).0
        ≡ ok (record { resource = resource "index" name; status = deleted })
  unfolding delete_resource drop after_read deletion_report send_deletion unread perform attempt
      attempted pure ◌>>=◌
  refused_deletion_reported code b found answer = rw (found, answer) refl

  -- In version 2, a prefix whose users cannot be read stands for its other resources only, and no error
  -- tells of it.
  pub unread_users_kept :
      (e : Error)
      → get_users_by_prefix w name log ≡ (err e, log')
      → expand w v2 (resource "resourcePrefix" name) log ≡ (ok (of_prefix v2 name), log')
  unfolding expand of_prefix users_of attempt attempted pure ◌>>=◌
  unread_users_kept e unread_list = rw unread_list refl
