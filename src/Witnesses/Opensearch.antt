-- ===== src/Witnesses/Opensearch.antt =====
-- The reconciler of OpenSearch at concrete clusters.
use qubership_opensearch.Prelude.{inl, ◌≡◌, refl, true, not, ◌&&◌, ◌||◌, none, some, [], ◌∷◌, map}
use qubership_opensearch.Json.{Json, end, str, object}
use qubership_opensearch.Http.{
  Method, sent, World, Credentials, request_of, pure, send_request, send_basic_request, ◌>>=◌,
}
use qubership_opensearch.Http.Automaton.{Moves}
use qubership_opensearch.Opensearch.{StatefulSet, Kube}
use qubership_opensearch.Opensearch.Pods.{restart_opensearch_pod, restart_opensearch_pods}
use qubership_opensearch.Opensearch.Pods.Careful
use qubership_opensearch.Opensearch.Pods.Careful.{restart_opensearch_pods-Moves}
use qubership_opensearch.Opensearch.Pods.Resume.{
  collect, due, recorded, restart_opensearch_pod-Moves,
}
use qubership_opensearch.Opensearch.Rolling.{RollingStatus, Attempts, run_rolling_update}
use qubership_opensearch.Opensearch.Rolling.Allocation.{Reenabled, run_rolling_update-Reenabled}
use qubership_opensearch.Opensearch.Mapping.{has, merge_backend_roles_lists}
use qubership_opensearch.Opensearch.Mapping.Merge.{has-merge_backend_roles_lists}
use qubership_opensearch.Opensearch.Credentials.{update_credentials}
use qubership_opensearch.Opensearch.Credentials.Order.{creation, update_credentials-refused}
use qubership_opensearch.Opensearch.Snapshots.{
  Snapshots, get_snapshots_repository_body, create_snapshots_repository, try_repository, is_missing,
  is_created,
}
use qubership_opensearch.Opensearch.Snapshots.Created.{
  AsksFor, directory, IsAccepted, create_snapshots_repository-IsAccepted,
}
use qubership_opensearch.Witnesses.Worlds.{answering, rest_client}

-- Two replicas, of which the second one is not updated.
abbrev set : StatefulSet
set = record {
  name = "opensearch";
  on_delete = true;
  replicas = 2;
  updated_replicas = 1;
  generation = 3;
}

abbrev pub kube : Kube
kube = record {
  find_stateful_set = λ log name. inl set;
  own = λ log name. none;
  find_pod = λ log name replica. inl (true ∷ []);
  find_secret = λ log name. inl [];
  find_deployment =
      λ log name. inl (record { replicas = 1; ready_replicas = 1; updated_replicas = 1 });
  hash = λ content. "5f";
  read_yaml = λ text. inl end;
}

abbrev pub healthy : World
healthy = answering 200 (object (("status", str "green") ∷ []))

abbrev attempts : Attempts
attempts = record { health = 2; settings = 2; pods = 2 }

restart_opensearch_pods-Moves_example :
    Moves Careful.step none (λ _. none) (restart_opensearch_pods healthy kube 2 (set ∷ []) [])
restart_opensearch_pods-Moves_example = restart_opensearch_pods-Moves healthy kube 2 (set ∷ []) []

restart_opensearch_pod-Moves_example :
    Moves collect []
      (λ _. map (λ r. (set.name, r)) (due 2 (recorded healthy kube set [])))
      (restart_opensearch_pod healthy kube 2 set [])
restart_opensearch_pod-Moves_example = restart_opensearch_pod-Moves healthy kube 2 set []

abbrev idle : RollingStatus
idle = record { status = "done"; sets = [] }

run_rolling_update-Reenabled_example :
    Reenabled rest_client []
      (run_rolling_update healthy kube attempts rest_client idle (set ∷ []) []).1
run_rolling_update-Reenabled_example =
    run_rolling_update-Reenabled healthy kube attempts rest_client idle (set ∷ []) []

has-merge_backend_roles_lists_example :
    has (merge_backend_roles_lists ("a" ∷ []) ("b" ∷ []) ("a" ∷ "c" ∷ [])) "c"
    ≡ (has ("b" ∷ []) "c" || (has ("a" ∷ "c" ∷ []) "c" && not (has ("a" ∷ []) "c")))
has-merge_backend_roles_lists_example =
    has-merge_backend_roles_lists ("a" ∷ []) ("b" ∷ []) ("a" ∷ "c" ∷ []) "c"

abbrev refusing : World
refusing = answering 403 (object [])

abbrev old_admin : Credentials
old_admin = record { username = "admin"; password = "admin" }

abbrev new_admin : Credentials
new_admin = record { username = "root"; password = "s3cret" }

update_credentials-refused_example :
    (update_credentials refusing kube 2 "http://opensearch:9200" "opensearch" new_admin old_admin
      []).1
    ≡ sent (creation refusing kube 2 "http://opensearch:9200" "opensearch" new_admin old_admin) ∷ []
update_credentials-refused_example =
    update_credentials-refused refusing kube 2 "http://opensearch:9200" "opensearch" new_admin
      old_admin [] 403 (record { text = "{…}"; document = some (object []) }) refl refl refl refl

abbrev repository : Snapshots
repository = record { repository_name = "snapshots"; s3 = none }

create_snapshots_repository-IsAccepted_example :
    (body : Json) × AsksFor kube [] none body
    × IsAccepted healthy kube rest_client "_snapshot/snapshots" body (
        sent (request_of rest_client Method.get "_snapshot/snapshots" none true)
        ∷ sent (request_of rest_client Method.put "_snapshot/snapshots" (some directory) true)
        ∷ [])
unfolding create_snapshots_repository get_snapshots_repository_body try_repository is_missing
    is_created send_request send_basic_request pure ◌>>=◌
create_snapshots_repository-IsAccepted_example =
    create_snapshots_repository-IsAccepted healthy kube rest_client 5 repository [] _ refl
