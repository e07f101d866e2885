-- ===== src/Adapter/Backup/Skipped.antt =====
-- What becomes of a database whose wanted prefix cannot be given to it.
use Prim.Native.Char.{code}
use Prim.Native.String.append
use qubership_opensearch.Prelude.{
  ℕ, ◌⊎◌, ◌≡◌, ◌≢◌, refl, ap, ◌∙◌, String, true, false, ◌<>◌, eqb, List, [], ◌∷◌, ==-false,
}
use qubership_opensearch.Http.{World, Event, Error, err, pure, attempt, attempted, ◌>>=◌}
use qubership_opensearch.Adapter.Backup.Curator.{Curator, request_restoration}
use qubership_opensearch.Adapter.Backup.Renaming.{
  Database, check_prefix_uniqueness, checked_rename, rename_database, rename_databases, renames_for,
  names_of, pairs_of, changed_names, process_restoration_request, pair_of, before_colon,
  after_colon,
}

module _ (w : World) (prepare : List Event → String → String → ℕ → String ⊎ Error) where
  -- A database whose prefix is in use, or cannot be checked, is restored under its old name: the
  -- request for a restore with new names goes out without a rename, and no error is reported.
  pub taken_prefix_ignored :
      (c : Curator) (id : String) (db : Database) (log : List Event) (e : Error)
      → db.prefix ≢ ""
      → (check_prefix_uniqueness w db.prefix log).0 ≡ err e
      → process_restoration_request w prepare c id (db ∷ []) true log
        ≡ (request_restoration w c (db.name ∷ []) id [] >>= λ track. pure ([], track))
            (check_prefix_uniqueness w db.prefix log).1
  unfolding process_restoration_request renames_for rename_databases rename_database checked_rename
      names_of pairs_of changed_names attempt attempted pure ◌>>=◌
  taken_prefix_ignored c id db log e wanted taken = rw (==-false _ _ wanted) (rw taken refl)

-- The text has no colon.
abbrev pub HasNoColon : String → Type 0
HasNoColon String.[] = Unit
HasNoColon (String.◌∷◌ c s) = (eqb (code c) b':' ≡ false) × HasNoColon s

colon : (t : String) → ":" <> t ≡ String.◌∷◌ ":" t
colon t = append.cons ":" "" t ∙ ap (λ x. String.◌∷◌ ":" x) (append.nil t)

before_colon_self : (s : String) → HasNoColon s → before_colon s ≡ s
unfolding before_colon
before_colon_self String.[] h = refl
before_colon_self (String.◌∷◌ c s) (hc, h) =
    rw hc (ap (λ x. String.◌∷◌ c x) (before_colon_self s h))

before_colon-pair : (s t : String) → HasNoColon s → before_colon (s <> String.◌∷◌ ":" t) ≡ s
unfolding before_colon
before_colon-pair String.[] t h = rw (append.nil (String.◌∷◌ ":" t)) refl
before_colon-pair (String.◌∷◌ c s) t (hc, h) =
    rw (append.cons c s (String.◌∷◌ ":" t))
      (rw hc (ap (λ x. String.◌∷◌ c x) (before_colon-pair s t h)))

after_colon-pair : (s t : String) → HasNoColon s → after_colon (s <> String.◌∷◌ ":" t) ≡ t
unfolding after_colon
after_colon-pair String.[] t h = rw (append.nil (String.◌∷◌ ":" t)) refl
after_colon-pair (String.◌∷◌ c s) t (hc, h) =
    rw (append.cons c s (String.◌∷◌ ":" t)) (rw hc (after_colon-pair s t h))

-- A rename is written as the name, a colon and the prefix, and is read back as the two, if neither
-- has a colon.
pair_of-rename :
    (name prefix : String)
    → HasNoColon name
    → HasNoColon prefix
    → pair_of (name <> ":" <> prefix) ≡ (name, prefix)
unfolding pair_of
pair_of-rename name prefix hn hp = rw (colon prefix) (
    rw (before_colon-pair name prefix hn)
      (rw (after_colon-pair name prefix hn) (rw (before_colon_self prefix hp) refl)))
