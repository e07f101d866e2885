-- ===== src/Adapter/Backup/Tracking.antt =====
-- The list of the indices in a track path, as RestoreBackupHandler writes it and as
-- TrackRestoreFromIndicesHandler reads it.
use Prim.Native.Char.{code}
use Prim.Native.String.append
use qubership_opensearch.Prelude.{◌≡◌, String, false, eqb, [], ◌∷◌}

-- The text has no comma.
abbrev pub HasNoComma : String → Type 0
HasNoComma String.[] = Unit
HasNoComma (String.◌∷◌ c s) = (eqb (code c) b',' ≡ false) × HasNoComma s
