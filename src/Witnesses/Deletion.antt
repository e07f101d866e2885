-- ===== src/Witnesses/Deletion.antt =====
-- Bulk drops of the adapter.
use qubership_opensearch.Prelude.{ℕ, String, refl, List, [], ◌∷◌}
use qubership_opensearch.Http.{Error, transport, wrapped, pure, raise, attempt, attempted, ◌>>=◌}
use qubership_opensearch.Adapter.Transport.{perform, do_request, process_body}
use qubership_opensearch.Adapter.Resources.{
  get_database, get_user, get_template, get_index_template, get_alias, get_metadata, found_of,
}
use qubership_opensearch.Adapter.Deletion.{
  resource, delete_failed, Report, v1, of_prefix, of_kind, is_failure, failures, drop_answer,
  deletion_report, after_read, drop, delete_resource, delete_each, delete_by_kind, expand,
  expand_all, delete_resources, bulk_drop_resource_handler,
}
use qubership_opensearch.Adapter.Deletion.Reports.{
  AreReported, Tells, bulk_drop_resource_handler-Tells,
}
use qubership_opensearch.Witnesses.Worlds.{failing}

-- The answer of a bulk drop while OpenSearch cannot be reached.
abbrev unreached : ℕ × List Report
unreached = (500, all)
  where
    failed : String → String → Error → Report
    failed kind name e = record { resource = resource kind name; status = delete_failed e }

    unread : Error
    unread = transport "EOF"

    all : List Report
    all =
        failed "user" "orders" (wrapped "failed to receive user" unread)
        ∷ failed "index" "orders*" (wrapped "failed to receive index" unread)
        ∷ failed "metadataDocument" "orders" unread
        ∷ failed "template" "orders*" unread
        ∷ failed "indexTemplate" "orders*" unread
        ∷ failed "alias" "orders*" unread
        ∷ []

bulk_drop_resource_handler-Tells_example :
    (ds : List Report) × AreReported failing v1 (resource "resourcePrefix" "orders" ∷ []) ds []
    × Tells ds unreached
unfolding bulk_drop_resource_handler delete_resources expand_all expand of_prefix delete_by_kind
    of_kind delete_each delete_resource drop after_read deletion_report get_database get_user
    get_template get_index_template get_alias get_metadata found_of do_request process_body perform
    drop_answer failures is_failure attempt attempted pure raise ◌>>=◌
bulk_drop_resource_handler-Tells_example =
    bulk_drop_resource_handler-Tells failing v1 (resource "resourcePrefix" "orders" ∷ []) unreached
      [] _ refl
