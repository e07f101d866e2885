-- ===== src/Adapter/Databases/Hidden.antt =====
-- What the creation of a database hides.
use qubership_opensearch.Prelude.{ℕ, ◌⊎◌, inl, ◌≡◌, refl, String, Bool, false, ◌==◌, none, List}
use qubership_opensearch.Http.{Event, World, Error, ok, err, pure, attempt, attempted, ◌>>=◌}
use qubership_opensearch.Adapter.Resources.{delete_database}
use qubership_opensearch.Adapter.Metadata.{create_metadata}
use qubership_opensearch.Adapter.Backup.Renaming.{check_prefix_uniqueness}
use qubership_opensearch.Adapter.Accounts.{BaseProvider, answer_of}
use qubership_opensearch.Adapter.Databases.{
  DbCreateRequest, Progress, choose_prefix, create_kinds, kinds_of, start, conclude,
  create_database, create_database_handler,
}

module _ (w : World) (attempts : ℕ) (prepare : List Event → String → String → ℕ → String ⊎ Error)
    (bp : BaseProvider) (r : DbCreateRequest) where
  -- Where the metadata of a database with an index cannot be written, and the request to delete the index
  -- gets an answer, the handler answers 201, and there is no response.
  pub metadata_failure_hidden :
      (prefix : String) (p : Progress) (e : Error) (unique : Bool)
      (log log1 log2 log3 log4 log5 : List Event)
      → choose_prefix w attempts prepare bp r log ≡ (ok prefix, log1)
      → check_prefix_uniqueness w prefix log1 ≡ (ok unique, log2)
      → create_kinds w attempts prepare bp r prefix
          (kinds_of bp.api_version r.create_only)
          (start w attempts prepare bp r prefix)
          log2
        ≡ (ok p, log3)
      → (p.index_name == "") ≡ false
      → create_metadata w p.index_name r.metadata log3 ≡ (err e, log4)
      → delete_database w p.index_name log4 ≡ (ok tt, log5)
      → create_database_handler w attempts prepare bp r log ≡ (ok (201, inl none), log5)
  unfolding create_database_handler create_database conclude answer_of attempt attempted pure ◌>>=◌
  metadata_failure_hidden prefix p e unique log log1 log2 log3 log4 log5 chosen checked made named
        unwritten gone =
      rw (chosen, checked, made, named, unwritten, named, gone) refl
