-- ===== src/Opensearch/Mapping/Merge.antt =====
-- What the merge of backend roles keeps, adds and removes.
use qubership_opensearch.Prelude.{
  ◌≡◌, refl, String, Bool, true, false, not, ◌&&◌, ◌||◌, ◌==◌, eq_iff, filter_bool, List, [], ◌∷◌,
  ◌++◌, All, arith,
}
use qubership_opensearch.Opensearch.Mapping.{has, append_absent, merge_backend_roles_lists}

has-append :
    (result : List String) (role s : String)
    → has (result ++ role ∷ []) s ≡ (has result s || role == s)
unfolding has
has-append [] role s = ground arith
has-append (r ∷ result) role s = ground (arith, has-append result role s)

has-append_absent :
    (result roles : List String) (s : String)
    → has (append_absent result roles) s ≡ (has result s || has roles s)
unfolding has append_absent
has-append_absent result [] s = ground arith
has-append_absent result (role ∷ roles) s = ground (
  arith,
  eq_iff role s,
  has-append_absent result roles s,
  has-append_absent (result ++ role ∷ []) roles s,
  has-append result role s,
)

has-filter :
    (f : String → Bool) (xs : List String) (s : String)
    → has (filter_bool f xs) s ≡ (has xs s && f s)
unfolding has
has-filter f [] s = refl
has-filter f (x ∷ xs) s = ground (arith, eq_iff x s, has-filter f xs s)

-- A backend role is in the merged list exactly if it is in the new list of the secret, or OpenSearch has
-- it and the old list of the secret does not: what others have given stays.
pub has-merge_backend_roles_lists :
    (old new found : List String) (role : String)
    → has (merge_backend_roles_lists old new found) role
      ≡ (has new role || (has found role && not (has old role)))
unfolding merge_backend_roles_lists
has-merge_backend_roles_lists old new found role =
    let exclude = filter_bool (λ r. not (has new r)) old in
    ground (
      arith,
      has-append_absent (filter_bool (λ r. not (has exclude r)) found) new role,
      has-filter (λ r. not (has exclude r)) found role,
      has-filter (λ r. not (has new r)) old role,
    )

append_absent-known :
    (result roles : List String)
    → All (λ r. has result r ≡ true) roles
    → append_absent result roles ≡ result
unfolding append_absent
append_absent-known result [] h = refl
append_absent-known result (role ∷ roles) h = rw (h.0) (append_absent-known result roles h.1)

filter-none :
    (f : String → Bool) (xs : List String) → All (λ x. f x ≡ false) xs → filter_bool f xs ≡ []
filter-none f [] h = refl
filter-none f (x ∷ xs) h = rw (h.0) (filter-none f xs h.1)

filter-all :
    (f : String → Bool) (xs : List String) → ((x : String) → f x ≡ true) → filter_bool f xs ≡ xs
filter-all f [] h = refl
filter-all f (x ∷ xs) h = rw (h x, filter-all f xs h) refl

All-of :
    {P : String → Type 0} (xs : List String) → ((x : String) → has xs x ≡ true → P x) → All P xs
unfolding has
All-of [] h = tt
All-of (x ∷ xs) h = (h x (ground (arith, eq_iff x x)), All-of xs (λ y inside. h y (ground arith)))

merge-settled :
    (new result : List String)
    → All (λ r. has result r ≡ true) new
    → merge_backend_roles_lists new new result ≡ result
unfolding merge_backend_roles_lists has
merge-settled new result h =
    rw
      (
        filter-none (λ r. not (has new r)) new (All-of new (λ r inside. rw inside refl)),
        filter-all (λ r. not (has [] r)) result (λ r. refl),
      )
      (append_absent-known result new h)

-- Once the merge is done, and the secret has not changed, another merge changes nothing.
merge_backend_roles_lists-again :
    (old new found : List String)
    → merge_backend_roles_lists new new (merge_backend_roles_lists old new found)
      ≡ merge_backend_roles_lists old new found
merge_backend_roles_lists-again old new found =
    merge-settled new (merge_backend_roles_lists old new found)
      (All-of new (λ r inside. ground (arith, has-merge_backend_roles_lists old new found r)))
