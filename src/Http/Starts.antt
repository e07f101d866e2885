-- ===== src/Http/Starts.antt =====
-- Actions that begin with a known event.
use qubership_opensearch.Prelude.{
  ◌≡◌, sym, append-nil, ◌∙◌, ap, List, [], ◌∷◌, ◌++◌, append_assoc, All, All-append, String, true,
  Option,
}
use qubership_opensearch.Json.{Json}
use qubership_opensearch.Http.Types.{Method, Event, sent, World}
use qubership_opensearch.Http.Action.{Exec, Result, ok, err, panicked, continue, attempt, ◌>>=◌}
use qubership_opensearch.Http.Client.{RestClient, request_of, send_basic_request, send_request}
use qubership_opensearch.Http.Trace.{Adds}

-- The first event is `e`, and the others have `P`.
pub record Starts (e : Event) (P : Event → Type 0) {A : Type 0} (m : Exec A) : Type 0 where
  pub at :
      (log : List Event) → (new : List Event) × ((m log).1 ≡ (log ++ e ∷ []) ++ new) × All P new

module _ {e : Event} {P : Event → Type 0} where
  pub Starts-attempt : {A : Type 0} (m : Exec A) → Starts e P m → Starts e P (attempt m)
  unfolding attempt
  Starts-attempt m h = record { at = h.at }

  pub Starts-bind :
      {A B : Type 0} (m : Exec A) (f : A → Exec B)
      → Starts e P m
      → ((a : A) → Adds P (f a))
      → Starts e P (m >>= f)
  unfolding ◌>>=◌
  Starts-bind {A} {B} m f hm hf = record {
    at = λ log. let (new, same, h) = hm.at log in go (m log).0 (m log).1 log new same h;
  }
    where
      go :
          (r : Result A) (log' log new : List Event)
          → log' ≡ (log ++ e ∷ []) ++ new
          → All P new
          → (all : List Event) × ((continue r f log').1 ≡ (log ++ e ∷ []) ++ all) × All P all
      go (ok a) log' log new same h =
          let (later, grown, hl) = (hf a).at log' in
          (
            new ++ later,
            grown ∙ ap (λ l. l ++ later) same ∙ append_assoc (log ++ e ∷ []) new later,
            All-append P new later h hl,
          )
      go (err d) log' log new same h = (new, same, h)
      go (panicked text) log' log new same h = (new, same, h)

module _ {P : Event → Type 0} (w : World) (rc : RestClient) where
  pub Starts-send_request :
      (method : Method) (path : String) (payload : Option Json)
      → Starts
          (sent (request_of rc method path payload true))
          P
          (send_request w rc method path payload)
  unfolding send_request send_basic_request
  Starts-send_request method path payload = record { at = λ log. ([], sym (append-nil _), tt) }
