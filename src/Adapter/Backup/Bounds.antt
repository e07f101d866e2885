-- ===== src/Adapter/Backup/Bounds.antt =====
-- The lengths of the names under which indices are restored.
use Prim.Native.String.{len}
use qubership_opensearch.Prelude.{ℕ, ◌≤◌, ◌<◌, String, List, [], ◌∷◌, All, arith}
use qubership_opensearch.Http.{World, Event}
use qubership_opensearch.Http.Yields.{Yields}
use qubership_opensearch.Adapter.Backup.Curator.{Curator}
use qubership_opensearch.Adapter.Backup.Restoring.{name_limit}

-- The name of a restored index is below the limit of OpenSearch.
abbrev pub IsShort : String × String → Type 0
IsShort (old, new) = len new < name_limit

-- Every text of the list is at most that long.
abbrev AtMost : ℕ → List String → Type 0
AtMost m = All (λ index. len index ≤ m)

AtMost-le : (m n : ℕ) (indices : List String) → m ≤ n → AtMost m indices → AtMost n indices
AtMost-le m n [] h hs = tt
AtMost-le m n (index ∷ indices) h (hi, hs) = (omega arith, AtMost-le m n indices h hs)

-- A UUID has 36 characters.
abbrev pub HasShortIds : World → Type 0
HasShortIds w = (log : List Event) → len (w.uuid log) ≤ 36

module _ (w : World) (short_ids : HasShortIds w) where
  abbrev IsShortName : String → Type 0
  IsShortName s = len s ≤ 42
