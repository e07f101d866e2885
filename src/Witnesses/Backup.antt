-- ===== src/Witnesses/Backup.antt =====
-- Runs of the handlers of the backup.
use qubership_opensearch.Prelude.{ℕ, ◌⊎◌, inl, String, some, List, [], ◌∷◌}
use qubership_opensearch.Json.{texts}
use qubership_opensearch.Http.{Event, Body, Error}
use qubership_opensearch.Http.Yields.{Yields}
use qubership_opensearch.Adapter.Backup.Curator.{Curator, ActionTrack, restore_track, success}

abbrev track : ActionTrack
track = restore_track "b1" success (("a", "d_a") ∷ ("b", "d_b") ∷ [])

abbrev curator : Curator
curator = record { url = "http://curator:8080"; username = "u"; password = "p" }

abbrev prepared : List Event → String → String → ℕ → String ⊎ Error
prepared log namespace microservice limit = inl "orders_new"

abbrev one_database : Body ⊎ Error
one_database = inl (record { text = "[…]"; document = some (texts ("orders" ∷ [])) })
