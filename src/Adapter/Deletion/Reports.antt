-- ===== src/Adapter/Deletion/Reports.antt =====
-- What a bulk drop reports, and what it leaves out.
use qubership_opensearch.Prelude.{
  ℕ, ◌⊎◌, inl, inr, ◌≡◌, refl, ap, subst, All, String, Bool, true, false, Bool-cases, ◌==◌,
  is_empty, List, [], ◌∷◌, ◌++◌, map, if◌then◌else◌,
}
use qubership_opensearch.Http.{Event, World, Error, Exec, ok, pure, ◌>>=◌}
use qubership_opensearch.Http.Success.{>>=-eq-ok, pure-eq-ok}
use qubership_opensearch.Http.Yields.{
  OnOk, Yields, Yields-pure, Yields-bind, Yields-bind_of, Yields-mono,
}
use qubership_opensearch.Adapter.Resources.{
  get_database, user_exists, get_template, get_index_template, get_alias, get_metadata,
  delete_database, delete_metadata, delete_user, delete_template, delete_index_template,
  delete_alias,
}
use qubership_opensearch.Adapter.Deletion.Prefixes.{StandFor, expand_all-StandFor}
use qubership_opensearch.Adapter.Deletion.{
  Resource, Status, deleted, delete_failed, Report, is_failure, ApiVersion, of_kind, failures,
  drop_answer, deletion_report, after_read, drop, delete_resource, delete_each, delete_by_kind,
  delete_resources, bulk_drop_resource_handler,
}

-- The report is about the resource.
abbrev IsAbout : Resource → Report → Type 0
IsAbout r d = d.resource ≡ r

-- The order in which the resources are deleted and reported.
abbrev pub in_order : List Resource → List Resource
in_order rs =
    of_kind "user" rs
    ++ of_kind "index" rs
    ++ of_kind "metadataDocument" rs
    ++ of_kind "template" rs
    ++ of_kind "indexTemplate" rs
    ++ of_kind "alias" rs

abbrev pub resources : List Report → List Resource
resources ds = map (λ (d : Report). d.resource) ds

-- The reports of deletions that have failed.
abbrev pub failed_ones : List Report → List Report
failed_ones [] = []
failed_ones (d ∷ ds) =
    let rest = failed_ones ds in elim d.status [ deleted ↦ rest | delete_failed e ↦ d ∷ rest ]

-- What an answer tells: with 200 all reports, each of a deletion; with 500 the failed ones of them, of
-- which there is one at least.
abbrev pub Tells : List Report → ℕ × List Report → Type 0
Tells ds (code, told) =
    ((code ≡ 200) × (told ≡ ds) × All (λ (d : Report). d.status ≡ deleted) ds)
    ⊎ ((code ≡ 500) × (told ≡ failed_ones ds) × (is_empty (failed_ones ds) ≡ false))

failures-failed : (ds : List Report) → failures ds ≡ failed_ones ds
unfolding failures is_failure
failures-failed [] = refl
failures-failed (d ∷ ds) = go d.status (failures-failed ds)
  where
    go :
        (s : Status)
        → failures ds ≡ failed_ones ds
        → (if (elim s [ deleted ↦ false | delete_failed e ↦ true ])
            then d ∷ failures ds
            else failures ds)
          ≡ elim s [ deleted ↦ failed_ones ds | delete_failed e ↦ d ∷ failed_ones ds ]
    go deleted same = same
    go (delete_failed e) same = ap (λ rs. d ∷ rs) same

none_failed :
    (ds : List Report)
    → is_empty (failed_ones ds) ≡ true
    → All (λ (d : Report). d.status ≡ deleted) ds
none_failed [] h = tt
none_failed (d ∷ ds) h = go d.status refl h (none_failed ds)
  where
    go :
        (s : Status)
        → d.status ≡ s
        → is_empty (elim s [ deleted ↦ failed_ones ds | delete_failed e ↦ d ∷ failed_ones ds ])
          ≡ true
        → (is_empty (failed_ones ds) ≡ true → All (λ (d : Report). d.status ≡ deleted) ds)
        → (d.status ≡ deleted) × All (λ (d : Report). d.status ≡ deleted) ds
    go deleted same h rest = (same, rest h)
    go (delete_failed e) same h rest = absurd (cc h)

drop_answer-Tells : (ds : List Report) → Tells ds (drop_answer ds)
unfolding drop_answer
drop_answer-Tells ds = elim (Bool-cases (is_empty (failed_ones ds))) [
  | inl good ↦ rw (failures-failed ds, good) (inl (refl, refl, none_failed ds good))
  | inr bad ↦ rw (failures-failed ds, bad) (inr (refl, refl, refl))
]

deletion_report-IsAbout :
    (r : Resource) (done : (Unit {0}) ⊎ Error) → IsAbout r (deletion_report r done)
unfolding deletion_report
deletion_report-IsAbout r (inl done) = refl
deletion_report-IsAbout r (inr e) = refl

after_read-IsAbout :
    (r : Resource) (delete : Exec (Unit {0})) (found : Bool ⊎ Error)
    → Yields (IsAbout r) (after_read r delete found)
unfolding after_read
after_read-IsAbout r delete (inr e) = Yields-pure _ refl
after_read-IsAbout r delete (inl true) =
    Yields-bind _ _ (λ done. Yields-pure _ (deletion_report-IsAbout r done))
after_read-IsAbout r delete (inl false) = Yields-pure _ refl

drop-IsAbout :
    (r : Resource) (read : Exec Bool) (delete : Exec (Unit {0}))
    → Yields (IsAbout r) (drop r read delete)
unfolding drop
drop-IsAbout r read delete = Yields-bind _ _ (after_read-IsAbout r delete)

when :
    (r : Resource) {m n : Exec Report} (b : Bool)
    → Yields (IsAbout r) m
    → Yields (IsAbout r) n
    → Yields (IsAbout r) (if b then m else n)
when r true hm hn = hm
when r false hm hn = hn

resources-append : (xs ys : List Report) → resources (xs ++ ys) ≡ resources xs ++ resources ys
resources-append [] ys = refl
resources-append (d ∷ xs) ys = ap (λ rs. d.resource ∷ rs) (resources-append xs ys)

joined :
    (ds es : List Report) {rs ss : List Resource}
    → resources ds ≡ rs
    → resources es ≡ ss
    → resources (ds ++ es) ≡ rs ++ ss
joined ds es hd he = cc (resources-append ds es, hd, he)

module _ (w : World) where
  delete_resource-IsAbout : (r : Resource) → Yields (IsAbout r) (delete_resource w r)
  unfolding delete_resource
  delete_resource-IsAbout r =
      when r {m = drop r (get_database w r.name) (delete_database w r.name)} (r.kind == "index")
        (drop-IsAbout r (get_database w r.name) (delete_database w r.name))
        (when r {m = drop r (get_metadata w r.name) (delete_metadata w r.name)}
          (r.kind == "metadataDocument")
          (drop-IsAbout r (get_metadata w r.name) (delete_metadata w r.name))
          (when r {m = drop r (user_exists w r.name) (delete_user w r.name)} (r.kind == "user")
            (drop-IsAbout r (user_exists w r.name) (delete_user w r.name))
            (when r {m = drop r (get_template w r.name) (delete_template w r.name)}
              (r.kind == "template")
              (drop-IsAbout r (get_template w r.name) (delete_template w r.name))
              (when r {m = drop r (get_index_template w r.name) (delete_index_template w r.name)}
                (r.kind == "indexTemplate")
                (drop-IsAbout r (get_index_template w r.name) (delete_index_template w r.name))
                (when r {m = drop r (get_alias w r.name) (delete_alias w r.name)}
                  (r.kind == "alias") (drop-IsAbout r (get_alias w r.name) (delete_alias w r.name))
                  (Yields-pure _ refl))))))

  delete_each-resources : (rs : List Resource) → Yields (λ ds. resources ds ≡ rs) (delete_each w rs)
  unfolding delete_each
  delete_each-resources [] = Yields-pure _ refl
  delete_each-resources (r ∷ rs) =
      Yields-bind_of _ _ (delete_resource-IsAbout r) λ d about.
        Yields-bind_of _ _ (delete_each-resources rs) λ ds h. Yields-pure _ (cc (about, h))

  by_kind-resources :
      (rs : List Resource) (kind : String)
      → Yields (λ ds. resources ds ≡ of_kind kind rs) (delete_by_kind w rs kind)
  unfolding delete_by_kind
  by_kind-resources rs kind = delete_each-resources (of_kind kind rs)

  -- The reports on the resources and on others.
  abbrev AreAbout : List Resource → List Report → Type 0
  AreAbout all ds = resources ds ≡ in_order all

  -- deleteResources behind the expansion of the prefixes.
  by_kinds-AreAbout :
      (all : List Resource)
      → Yields (AreAbout all) (do
        users ← delete_by_kind w all "user"
        databases ← delete_by_kind w all "index"
        metadata ← delete_by_kind w all "metadataDocument"
        templates ← delete_by_kind w all "template"
        index_templates ← delete_by_kind w all "indexTemplate"
        aliases ← delete_by_kind w all "alias"
        pure (users ++ databases ++ metadata ++ templates ++ index_templates ++ aliases))
  by_kinds-AreAbout all = Yields-bind_of _ _ (by_kind-resources all "user") λ us hu.
      Yields-bind_of _ _ (by_kind-resources all "index") λ is hi.
        Yields-bind_of _ _ (by_kind-resources all "metadataDocument") λ ms hm.
          Yields-bind_of _ _ (by_kind-resources all "template") λ ts ht.
            Yields-bind_of _ _ (by_kind-resources all "indexTemplate") λ xs hx.
              Yields-bind_of _ _ (by_kind-resources all "alias") λ as' ha. Yields-pure _ (
                joined _ as' (joined _ xs (joined _ ts (joined _ ms (joined us is hu hi) hm) ht) hx)
                  ha)

  pub delete_resources-AreAbout :
      (version : ApiVersion) (rs : List Resource)
      → Yields
          (λ ds. (more : List Resource) × AreAbout (rs ++ more) ds)
          (delete_resources w version rs)
  unfolding delete_resources
  delete_resources-AreAbout version rs =
      Yields-bind _ _ λ more. Yields-mono (λ ds h. (more, h)) (by_kinds-AreAbout (rs ++ more))

  -- The reports are about the resources, and about what their prefixes stand for.
  abbrev pub AreReported : ApiVersion → List Resource → List Report → List Event → Type 0
  AreReported version rs ds log =
      (more : List Resource) × (mid : List Event) × StandFor w version rs more log mid
      × (resources ds ≡ in_order (rs ++ more))

  delete_resources-AreReported :
      (version : ApiVersion) (rs : List Resource) (ds : List Report) (log end : List Event)
      → delete_resources w version rs log ≡ (ok ds, end)
      → AreReported version rs ds log
  unfolding delete_resources
  delete_resources-AreReported version rs ds log end h =
      let (more, first, rest) = >>=-eq-ok _ _ log h in
      (
        more,
        _,
        expand_all-StandFor w version rs more log _ first,
        subst (OnOk (AreAbout (rs ++ more))) (ap (λ p. p.0) rest)
            ((by_kinds-AreAbout (rs ++ more)).at _),
      )

  -- A bulk drop that comes to its end has a report for each resource of the request and for those that
  -- its prefixes stand for, in the order of the kinds; in version 2 a prefix stands for every user whose
  -- name begins with it in the answer to the request for the users, and for none if that answer lists no
  -- users. It answers 200 with all reports if each is a deletion, and else 500 with exactly the failed
  -- ones. Resources of unknown kinds have no report.
  pub bulk_drop_resource_handler-Tells :
      (version : ApiVersion) (rs : List Resource) (answer : ℕ × List Report) (log end : List Event)
      → bulk_drop_resource_handler w version rs log ≡ (ok answer, end)
      → (ds : List Report) × AreReported version rs ds log × Tells ds answer
  unfolding bulk_drop_resource_handler
  bulk_drop_resource_handler-Tells version rs answer log end h =
      let (ds, first, last) = >>=-eq-ok _ _ log h in
      (
        ds,
        delete_resources-AreReported version rs ds log _ first,
        subst (Tells ds) (pure-eq-ok _ _ last).0 (drop_answer-Tells ds),
      )
