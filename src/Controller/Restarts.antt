-- ===== src/Controller/Restarts.antt =====
-- The restart of the pods of a deployment whose secret has changed.
use qubership_opensearch.Prelude.{
  ℕ, ◌⊎◌, inl, inr, ◌≡◌, sym, ap, ◌∙◌, String, true, ◌||◌, Option, none, some, List, [], ◌∷◌, ◌++◌,
}
use qubership_opensearch.Http.{
  Event, called, stored_hash, World, Error, annotate_deployment, ok, call, require_ok, note, pure,
  raise, ◌>>=◌,
}
use qubership_opensearch.Http.Success.{>>=-eq-ok}
use qubership_opensearch.Opensearch.{Deployment, Kube}
use qubership_opensearch.Controller.{
  stored_from, resource_hash, has_changed, change_deployment, add_annotations_to_deployment,
  restart_if_changed,
}

module _ (w : World) (k : Kube) (attempts : ℕ) where
  annotated :
      (name : String) (annotations : List (String × String)) (found : Deployment ⊎ Error)
      (log end : List Event)
      → change_deployment w k attempts found (call w (annotate_deployment name annotations)) log
        ≡ (ok tt, end)
      → end ≡ log ++ called (annotate_deployment name annotations) ∷ []
  unfolding change_deployment call require_ok raise
  annotated name annotations (inr e) log end h = cc
  annotated name annotations (inl d) log end h =
      go (w.call log (annotate_deployment name annotations)) h
    where
      go :
          (o : Option Error)
          → require_ok o (log ++ called (annotate_deployment name annotations) ∷ []) ≡ (ok tt, end)
          → end ≡ log ++ called (annotate_deployment name annotations) ∷ []
      go none h = cc
      go (some e) h = cc

  -- Where the secret of OpenSearch or that of the deployment has changed since its hash was stored, a
  -- reconciliation that returns no error has annotated the deployment with both hashes, and then it has
  -- stored that of the deployment's secret; nothing else has changed.
  restart_if_changed-annotated :
      (deployment hash_name opensearch_hash hash : String) (log end : List Event)
      → (has_changed (stored_from "" "secret.opensearch" log) opensearch_hash
          || has_changed (stored_from "" hash_name log) hash)
        ≡ true
      → restart_if_changed w k attempts deployment hash_name opensearch_hash hash log ≡ (ok tt, end)
      → end
        ≡ (log
            ++ called (
                annotate_deployment deployment
                  (("secret.opensearch", opensearch_hash) ∷ (hash_name, hash) ∷ []))
              ∷ [])
          ++ stored_hash hash_name hash ∷ []
  unfolding restart_if_changed resource_hash add_annotations_to_deployment note pure ◌>>=◌
  restart_if_changed-annotated deployment hash_name opensearch_hash hash log end changed h =
      let (u, first, last) =
        >>=-eq-ok
          (add_annotations_to_deployment w k attempts deployment
            (("secret.opensearch", opensearch_hash) ∷ (hash_name, hash) ∷ []))
          (λ _. note (stored_hash hash_name hash)) log (rw changed at h) in
      sym (ap (λ p. p.1) last)
      ∙ ap (λ l. l ++ stored_hash hash_name hash ∷ [])
          (annotated _ _ (k.find_deployment log deployment) log _ first)
