-- ===== src/Adapter/Health.antt =====
-- The health of the adapter: cluster/cluster.go and health/health.go of opensearch-dbaas-adapter.
pub mod Worst
use qubership_opensearch.Prelude.{
  ◌⊎◌, inl, inr, String, Bool, true, ◌||◌, ◌==◌, Option, none, some, List, [], ◌∷◌, if◌then◌else◌,
}
use qubership_opensearch.Json.{Fields, struct, text_field, decode_list}
use qubership_opensearch.Http.{World, Error, Exec, pure, panic, attempt, ◌>>=◌}
use qubership_opensearch.Adapter.Transport.{do_request}

-- The constants of common/common.go, from the worst to the best.
abbrev pub health_statuses : List String
health_statuses = "DOWN" ∷ "OUT_OF_SERVICE" ∷ "PROBLEM" ∷ "WARNING" ∷ "UNKNOWN" ∷ "UP" ∷ []

unfoldable pub status_of_color : String → String
status_of_color color =
    if color == "green"
    then "UP"
    else if color == "red"
    then "DOWN"
    else if color == "yellow"
    then "WARNING"
    else "PROBLEM"

-- componentHealth[0].Status
unfoldable pub color_of : List String ⊎ Error → Exec String
color_of (inr e) = pure "PROBLEM"
color_of (inl []) = panic "index out of range"
color_of (inl (color ∷ colors)) = pure (status_of_color color)

unfoldable pub get_health : World → Exec String
get_health w = do
  colors ←
      attempt
        (do_request w "/_cat/health?format=json" (decode_list (struct (text_field "status"))) [])
  color_of colors

-- The first of the statuses that one of the two has; none leaves the status as it was.
unfoldable pub first_status : List String → String → String → String → String
first_status [] opensearch aggregator old = old
first_status (s ∷ ss) opensearch aggregator old =
    let rest = first_status ss opensearch aggregator old in
    if s == opensearch || s == aggregator then s else rest

unfoldable pub determine_health_status : World → String → String → Exec String
determine_health_status w aggregator old = do
  opensearch ← get_health w
  pure (first_status health_statuses opensearch aggregator old)
