-- ===== src/Adapter/Databases/Dropped.antt =====
-- A database that was created, and the bulk drop of what its response lists.
use qubership_opensearch.Prelude.{
  ℕ, ◌⊎◌, inl, inr, ◌≡◌, refl, sym, ap, ◌∙◌, subst, String, Bool, true, false, Bool-cases, ◌==◌,
  ◌<>◌, eq_iff, Option, none, some, List, [], ◌∷◌, ◌++◌, All, All-append, if◌then◌else◌,
}
use qubership_opensearch.Http.{Event, World, Error, ok}
use qubership_opensearch.Http.Yields.{
  OnOk, Yields, Yields-pure, Yields-raise, Yields-bind, Yields-bind_of, Yields-if, Yields-mono,
}
use qubership_opensearch.Adapter.Roles.{supported_role_types}
use qubership_opensearch.Adapter.Users.{admin_role_type}
use qubership_opensearch.Adapter.Deletion.{
  Resource, resource, ApiVersion, v1, v2, of_kind, delete_resources,
}
use qubership_opensearch.Adapter.Deletion.Reports.{in_order, resources, delete_resources-AreAbout}
use qubership_opensearch.Adapter.Accounts.{
  BaseProvider, create_or_update_user, create_user_by_prefix,
}
use qubership_opensearch.Adapter.Databases.{
  DbCreateRequest, DbCreateResponse, Progress, create_role_users, create_users, create_kind,
  create_kinds, conclude, start, create_database,
}

-- The resource is among the resources.
abbrev pub Has : Resource → List Resource → Type 0
Has r [] = ⊥
Has r (x ∷ xs) = (r ≡ x) ⊎ Has r xs

Has-left : (r : Resource) (xs ys : List Resource) → Has r xs → Has r (xs ++ ys)
Has-left r [] ys h = elim h [ ]
Has-left r (x ∷ xs) ys (inl e) = inl e
Has-left r (x ∷ xs) ys (inr h) = inr (Has-left r xs ys h)

Has-right : (r : Resource) (xs ys : List Resource) → Has r ys → Has r (xs ++ ys)
Has-right r [] ys h = h
Has-right r (x ∷ xs) ys h = inr (Has-right r xs ys h)

kept :
    (k : String) (r x : Resource) (rest : List Resource)
    → Has r rest
    → Has r (if x.kind == k then x ∷ rest else rest)
kept k r x rest h = elim (Bool-cases (x.kind == k)) [
  | inl same ↦ rw same (inr h)
  | inr other ↦ rw other h
]

Has-of_kind :
    (k : String) (r : Resource) (rs : List Resource) → r.kind ≡ k → Has r rs → Has r (of_kind k rs)
unfolding of_kind
Has-of_kind k r [] same h = elim h [ ]
Has-of_kind k r (x ∷ xs) same (inl e) =
    rw ((eq_iff x.kind k).1 (ap (λ (y : Resource). y.kind) (sym e) ∙ same)) (inl e)
Has-of_kind k r (x ∷ xs) same (inr h) = kept k r x (of_kind k xs) (Has-of_kind k r xs same h)

-- The kinds of the resources that a creation makes.
abbrev pub IsMade : Resource → Type 0
IsMade r =
    (r.kind ≡ "user")
    ⊎ (r.kind ≡ "index")
    ⊎ (r.kind ≡ "metadataDocument")
    ⊎ (r.kind ≡ "resourcePrefix")

-- What is among the first three kinds is among all of them.
behind :
    (r : Resource) (rs : List Resource)
    → Has r (of_kind "user" rs ++ of_kind "index" rs ++ of_kind "metadataDocument" rs)
    → Has r (in_order rs)
behind r rs h =
    let three = of_kind "user" rs ++ of_kind "index" rs ++ of_kind "metadataDocument" rs in
    let ts = of_kind "template" rs in
    let xs = of_kind "indexTemplate" rs in
    Has-left r (three ++ ts ++ xs) (of_kind "alias" rs)
      (Has-left r (three ++ ts) xs (Has-left r three ts h))

in_order-Has :
    (r : Resource) (rs : List Resource)
    → IsMade r
    → Has r rs
    → (r.kind ≡ "resourcePrefix") ⊎ Has r (in_order rs)
in_order-Has r rs (inl user) h = inr (
    let us = of_kind "user" rs in
    let is = of_kind "index" rs in
    let ms = of_kind "metadataDocument" rs in
    let two = Has-left r us is (Has-of_kind "user" r rs user h) in
    behind r rs (Has-left r (us ++ is) ms two))
in_order-Has r rs (inr (inl index)) h = inr (
    let us = of_kind "user" rs in
    let is = of_kind "index" rs in
    let two = Has-right r us is (Has-of_kind "index" r rs index h) in
    behind r rs (Has-left r (us ++ is) (of_kind "metadataDocument" rs) two))
in_order-Has r rs (inr (inr (inl metadata))) h = inr (
    let two = of_kind "user" rs ++ of_kind "index" rs in
    behind r rs (
      Has-right r two (of_kind "metadataDocument" rs)
        (Has-of_kind "metadataDocument" r rs metadata h)))
in_order-Has r rs (inr (inr (inr prefix))) h = inl prefix

All-Has : (P : Resource → Type 0) (r : Resource) (rs : List Resource) → All P rs → Has r rs → P r
All-Has P r [] all h = elim h [ ]
All-Has P r (x ∷ xs) all (inl e) = subst P (sym e) all.0
All-Has P r (x ∷ xs) all (inr h) = All-Has P r xs all.1 h

module _ (w : World) (attempts : ℕ) (bp : BaseProvider) where
  create_user-IsMade :
      (name given db_name role_type : String)
      → Yields
          (λ a. All IsMade a.resources)
          (create_or_update_user w attempts bp name given db_name role_type)
  unfolding create_or_update_user
  create_user-IsMade name given db_name role_type = Yields-bind _ _ λ username.
      Yields-bind _ _
        λ password. Yields-bind _ _ λ user. Yields-bind _ _ λ _. Yields-pure _ (inl refl, tt)

  by_prefix-IsMade :
      (prefix given db_name role_type : String)
      → Yields
          (λ a. All IsMade a.resources)
          (create_user_by_prefix w attempts bp prefix given db_name role_type)
  unfolding create_user_by_prefix
  by_prefix-IsMade prefix given db_name role_type =
      Yields-bind _ _ λ id. create_user-IsMade (prefix <> "_" <> id) given db_name role_type

  module _ (prepare : List Event → String → String → ℕ → String ⊎ Error) where
    role_users-IsMade :
        (prefix db_name : String) (role_types : List String) (p : Progress)
        → All IsMade p.resources
        → Yields
            (λ q. All IsMade q.resources)
            (create_role_users w attempts prepare bp prefix db_name role_types p)
    unfolding create_role_users
    role_users-IsMade prefix db_name [] p h = Yields-pure _ h
    role_users-IsMade prefix db_name (t ∷ ts) p h =
        Yields-bind_of _ _ (by_prefix-IsMade prefix "" db_name t) λ a ha.
          role_users-IsMade prefix db_name ts _ (All-append IsMade p.resources a.resources h ha)

    create_users-IsMade :
        (version : ApiVersion) (r : DbCreateRequest) (prefix db_name : String) (p : Progress)
        → All IsMade p.resources
        → Yields
            (λ q. All IsMade q.resources)
            (create_users w attempts prepare bp version r prefix db_name p)
    unfolding create_users
    create_users-IsMade v1 r prefix db_name p h =
        Yields-bind_of _ _ (create_user-IsMade _ r.password db_name admin_role_type)
          λ a ha. Yields-pure _ (All-append IsMade p.resources a.resources h ha)
    create_users-IsMade v2 r prefix db_name p h =
        role_users-IsMade prefix db_name supported_role_types _ h

    create_kind-IsMade :
        (r : DbCreateRequest) (prefix kind : String) (p : Progress)
        → All IsMade p.resources
        → Yields (λ q. All IsMade q.resources) (create_kind w attempts prepare bp r prefix kind p)
    unfolding create_kind
    create_kind-IsMade r prefix kind p h =
        Yields-if (kind == "index") _ _
          (Yields-bind _ _ λ name.
            Yields-pure _
              (All-append IsMade p.resources (resource "index" name ∷ []) h (inr (inl refl), tt)))
          (Yields-if (kind == "user") _ _
            (Yields-bind _ _ λ db_name. create_users-IsMade bp.api_version r prefix db_name p h)
            (Yields-pure _ h))

    create_kinds-IsMade :
        (r : DbCreateRequest) (prefix : String) (kinds : List String) (p : Progress)
        → All IsMade p.resources
        → Yields (λ q. All IsMade q.resources) (create_kinds w attempts prepare bp r prefix kinds p)
    unfolding create_kinds
    create_kinds-IsMade r prefix [] p h = Yields-pure _ h
    create_kinds-IsMade r prefix (kind ∷ kinds) p h =
        Yields-bind_of _ _ (create_kind-IsMade r prefix kind p h)
          λ q hq. create_kinds-IsMade r prefix kinds q hq

    abbrev AllMade : Option DbCreateResponse → Type 0
    AllMade none = Unit
    AllMade (some response) = All IsMade response.resources

    conclude-IsMade :
        (r : DbCreateRequest) (prefix : String) (p : Progress) (done : (Unit {0}) ⊎ Error)
        → All IsMade p.resources
        → Yields AllMade (conclude w attempts prepare bp r prefix p done)
    unfolding conclude
    conclude-IsMade r prefix p (inl done) h =
        Yields-pure _ (All-append IsMade p.resources _ h (inr (inr (inl refl)), tt))
    conclude-IsMade r prefix p (inr e) h =
        Yields-if (p.index_name == "") _ _ (Yields-raise e) (Yields-bind _ _ λ _. Yields-pure _ tt)

    start-IsMade :
        (b : Bool) (prefix : String)
        → All IsMade (if b then resource "resourcePrefix" prefix ∷ [] else [])
    start-IsMade true prefix = (inr (inr (inr refl)), tt)
    start-IsMade false prefix = tt

    create_database-IsMade :
        (r : DbCreateRequest) → Yields AllMade (create_database w attempts prepare bp r)
    unfolding create_database
    create_database-IsMade r = Yields-bind _ _ λ prefix. Yields-bind _ _ λ unique.
        Yields-bind_of _ _
          (create_kinds-IsMade r prefix _ (start w attempts prepare bp r prefix)
            (start-IsMade r.resource_prefix prefix))
          λ p h. Yields-bind _ _ λ done. conclude-IsMade r prefix p done h

    -- After a creation has succeeded, a bulk drop of the resources that its response lists, at any time and
    -- with either version, has a report for each of them, other than the prefix.
    pub create-drop :
        (w' : World) (version : ApiVersion) (r : DbCreateRequest) (response : DbCreateResponse)
        (log log' : List Event)
        → create_database w attempts prepare bp r log ≡ (ok (some response), log')
        → Yields
            (λ ds.
              (x : Resource)
              → Has x response.resources
              → (x.kind ≡ "resourcePrefix") ⊎ Has x (resources ds))
            (delete_resources w' version response.resources)
    create-drop w' version r response log log' created =
        let made =
          subst (OnOk AllMade) (ap (λ z. z.0) created) ((create_database-IsMade r).at log) in
        Yields-mono
          (λ ds h. λ x among.
            let (more, same) = h in
            elim (in_order-Has x (response.resources ++ more)
              (All-Has IsMade x response.resources made among)
              (Has-left x response.resources more among)) [
                | inl prefix ↦ inl prefix
                | inr found ↦ inr (subst (Has x) (sym same) found)
              ])
          (delete_resources-AreAbout w' version response.resources)
