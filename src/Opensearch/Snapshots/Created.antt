-- ===== src/Opensearch/Snapshots/Created.antt =====
-- When the repository of the snapshots counts as created.
use qubership_opensearch.Prelude.{
  ℕ, zero, suc, ◌≡◌, refl, Bool, sym, Option, none, ap, ◌∙◌, ◌⊎◌, inl, inr, Bool-cases, String,
  true, false, some, List, [], ◌∷◌, ◌++◌, ◌<>◌, if◌then◌else◌, arith,
}
use qubership_opensearch.Json.{Json, object, str, bool}
use qubership_opensearch.Http.{
  Method, Request, Event, sent, Outcome, failed, broken, answered, Body, World, RestClient, Reply,
  request_of, reply_of, Exec, ok, send_request, send_basic_request, pure, sleep, ◌>>◌,
}
use qubership_opensearch.Http.Success.{>>=-eq-ok, pure-eq-ok, raise-ne-ok, ok-injective}
use qubership_opensearch.Opensearch.{Kube}
use qubership_opensearch.Opensearch.Secrets.{text_of}
use qubership_opensearch.Opensearch.Snapshots.{
  S3, gcs_body, s3_body, fs_body, get_s3_credentials, Snapshots, is_created, try_repository,
  create_snapshots_repository, get_snapshots_repository_body,
}

module _ (w : World) (k : Kube) (rc : RestClient) (path : String) (body : Json) where
  abbrev pub creation : Request
  creation = request_of rc Method.put path (some body) true

  -- The last event is the request for the repository, and it was answered with 200.
  pub record IsAccepted (end : List Event) : Type 0 where
    pub before : List Event
    pub answer : Body
    pub last : end ≡ before ++ sent creation ∷ []
    pub accepted : w.respond before creation ≡ answered 200 answer

  is_created-answered :
      (o : Outcome) → is_created w k rc (reply_of o) ≡ true → (b : Body) × (o ≡ answered 200 b)
  unfolding is_created
  is_created-answered (failed e) h = cc
  is_created-answered (broken code e) h = cc
  is_created-answered (answered code b) h = (b, ap (λ c. answered c b) (ground arith))

  -- What follows the answer to a request for the repository.
  again : ℕ → Reply → Exec (Unit {0})
  again attempts answer =
      if is_created w k rc answer
      then pure tt
      else (do sleep 5000; try_repository w k rc attempts answer.status_code path body)

  again-IsAccepted :
      (attempts : ℕ) (answer : Reply) (l end : List Event)
      → answer ≡ reply_of (w.respond l creation)
      → ((status : ℕ) (l' : List Event)
          → try_repository w k rc attempts status path body l' ≡ (ok tt, end)
          → IsAccepted end)
      → again attempts answer (l ++ sent creation ∷ []) ≡ (ok tt, end)
      → IsAccepted end
  unfolding again
  again-IsAccepted attempts answer l end same later h = go (Bool-cases (is_created w k rc answer))
    where
      go : (is_created w k rc answer ≡ true) ⊎ (is_created w k rc answer ≡ false) → IsAccepted end
      go (inl good) =
          let (b, accepted) =
            is_created-answered (w.respond l creation)
              (ap (λ r. is_created w k rc r) (sym same) ∙ good) in
          record {
            before = l;
            answer = b;
            last = sym (pure-eq-ok tt _ (rw good at h)).1;
            accepted = accepted;
          }
      go (inr bad) = later answer.status_code _ (>>=-eq-ok _ _ _ (rw bad at h)).2

  try_repository-IsAccepted :
      (attempts status : ℕ) (log end : List Event)
      → try_repository w k rc attempts status path body log ≡ (ok tt, end)
      → IsAccepted end
  unfolding try_repository send_request send_basic_request again
  try_repository-IsAccepted zero status log end h = absurd (raise-ne-ok _ log h)
  try_repository-IsAccepted (suc attempts) status log end h =
      let (found, read, rest) = >>=-eq-ok _ _ log h in
      let (gone, removed, put) = >>=-eq-ok _ _ _ rest in
      let (answer, given, over) = >>=-eq-ok _ _ _ put in
      again-IsAccepted attempts answer _ end (ok-injective (ap (λ p. p.0) given))
        (λ s l'. try_repository-IsAccepted attempts s l' end) over

-- The texts of the two keys in the secret of the S3 storage, which are empty where it cannot be read.
abbrev keys_of : Kube → String → List Event → String × String
keys_of k secret log = elim (k.find_secret log secret) [
  | inl content ↦ (text_of "s3-key-id" content, text_of "s3-key-secret" content)
  | inr e ↦ ("", "")
]

-- The documents for a repository: in the file system where no storage is asked for, else in a bucket.
abbrev pub directory : Json
directory = object (
    ("type", str "fs")
    ∷ (
      "settings",
      object (("location", str "/usr/share/opensearch/snapshots") ∷ ("compress", bool true) ∷ []),
    )
    ∷ [])

abbrev pub google_bucket : S3 → Json
google_bucket s = object (
    ("type", str "gcs")
    ∷ ("settings", object (("bucket", str s.bucket) ∷ ("client", str "default") ∷ []))
    ∷ [])

abbrev pub bucket_of : S3 → String → String → Json
bucket_of s key secret = object (
    ("type", str "s3")
    ∷ (
      "settings",
      object (
          ("base_path", str s.base_path)
          ∷ ("bucket", str s.bucket)
          ∷ ("region", str s.region)
          ∷ ("endpoint", str s.url)
          ∷ ("protocol", str "http")
          ∷ ("access_key", str key)
          ∷ ("secret_key", str secret)
          ∷ ("compress", bool true)
          ∷ ("path_style_access", str (if s.path_style_access then "true" else "false"))
          ∷ []),
    )
    ∷ [])

-- What the resource asks for: GCS goes before S3.
pub data AsksFor (k : Kube) (log : List Event) : Option S3 → Json → Type 0 where
  no_storage : AsksFor k log none directory
  off : (s : S3) → s.gcs_enabled ≡ false → s.enabled ≡ false → AsksFor k log (some s) directory
  gcs : (s : S3) → s.gcs_enabled ≡ true → AsksFor k log (some s) (google_bucket s)
  storage :
      (s : S3)
      → s.gcs_enabled ≡ false
      → s.enabled ≡ true
      → AsksFor k log
          (some s)
          (bucket_of s (keys_of k s.secret_name log).0 (keys_of k s.secret_name log).1)

body-AsksFor :
    (w : World) (k : Kube) (r : Snapshots) (log : List Event) (o : Option S3)
    → r.s3 ≡ o
    → AsksFor k log o (get_snapshots_repository_body w k r log)
unfolding get_snapshots_repository_body get_s3_credentials
body-AsksFor w k r log none same = rw same no_storage
body-AsksFor w k r log (some s) same = rw same (go s.gcs_enabled s.enabled refl refl)
  where
    go :
        (gcs_enabled enabled : Bool)
        → s.gcs_enabled ≡ gcs_enabled
        → s.enabled ≡ enabled
        → AsksFor k log (some s) (
            if gcs_enabled
            then gcs_body s
            else if enabled
            then s3_body s (get_s3_credentials w k s log)
            else fs_body)
    go true e g o = gcs s g
    go false true g o = storage s g o
    go false false g o = off s g o

-- The repository counts as created only if the last request was the one that creates it, with the
-- document for the storage that the resource asks for, and the cluster answered it with 200.
pub create_snapshots_repository-IsAccepted :
    (w : World) (k : Kube) (rc : RestClient) (attempts : ℕ) (r : Snapshots) (log end : List Event)
    → create_snapshots_repository w k rc attempts r log ≡ (ok tt, end)
    → (body : Json) × AsksFor k log r.s3 body
      × IsAccepted w k rc ("_snapshot/" <> r.repository_name) body end
unfolding create_snapshots_repository
create_snapshots_repository-IsAccepted w k rc attempts r log end h = (
  get_snapshots_repository_body w k r log,
  body-AsksFor w k r log r.s3 refl,
  try_repository-IsAccepted w k rc _ _ attempts 0 log end h,
)
