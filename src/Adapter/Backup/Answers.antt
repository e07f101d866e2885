-- ===== src/Adapter/Backup/Answers.antt =====
-- How many bodies the handlers of backup.go write.
use qubership_opensearch.Prelude.{ℕ, suc, ◌≡◌, List, [], ◌∷◌}
use qubership_opensearch.Http.Yields.{Yields}
use qubership_opensearch.Adapter.Backup.Curator.{Curator}
use qubership_opensearch.Adapter.Backup.Handlers.{Part, header, problem, tracked}

abbrev pub bodies : List Part → ℕ
bodies [] = 0
bodies (header code ∷ parts) = bodies parts
bodies (problem e ∷ parts) = suc (bodies parts)
bodies (tracked t ∷ parts) = suc (bodies parts)

abbrev pub IsSingle : List Part → Type 0
IsSingle parts = bodies parts ≡ 1
