-- ===== src/Http/Trace.antt =====
-- What an action may add to the events, one rule for each way to build an action.
use qubership_opensearch.Prelude.{
  ℕ, String, ◌≡◌, refl, sym, ◌∙◌, ap, Bool, true, false, Option, none, some, List, [], ◌∷◌, ◌++◌,
  append-nil, append_assoc, if◌then◌else◌, All, All-append, Dict,
}
use qubership_opensearch.Json.{Json}
use qubership_opensearch.Http.Types.{
  Method, Body, Event, sent, slept, dialled, Call, called, World, Error,
}
use qubership_opensearch.Http.Action
use qubership_opensearch.Http.Action.{
  Exec, Result, ok, err, panicked, panic, pure, raise, lift, attempt, require_ok, ensure, sleep,
  dial, note, call, ◌>>=◌,
}
use qubership_opensearch.Http.Client.{
  RestClient, request_of, unmarshal_to, send_basic_request, send_request, filter_rows,
  get_array_data,
}

-- `m` only adds events, each of which has `P`.
pub record Adds (P : Event → Type 0) {A : Type 0} (m : Exec A) : Type 0 where
  pub at : (log : List Event) → (new : List Event) × ((m log).1 ≡ log ++ new) × All P new

quiet :
    {P : Event → Type 0} (log : List Event) → (new : List Event) × (log ≡ log ++ new) × All P new
quiet log = ([], sym (append-nil log), tt)

module _ {P : Event → Type 0} {A : Type 0} where
  pub Adds-pure : (a : A) → Adds P (pure a)
  unfolding pure
  Adds-pure a = record { at = quiet }

  pub Adds-raise : (e : Error) → Adds P (raise {A = A} e)
  unfolding raise
  Adds-raise e = record { at = quiet }

  pub Adds-lift : (e : Error) (o : Option A) → Adds P (lift e o)
  unfolding lift
  Adds-lift e none = record { at = quiet }
  Adds-lift e (some a) = record { at = quiet }

  pub Adds-attempt : (m : Exec A) → Adds P m → Adds P (attempt m)
  unfolding attempt
  Adds-attempt m h = record { at = h.at }

  pub Adds-panic : (text : String) → Adds P (panic {A = A} text)
  unfolding panic
  Adds-panic text = record { at = quiet }

  pub Adds-if : (b : Bool) (m n : Exec A) → Adds P m → Adds P n → Adds P (if b then m else n)
  Adds-if true m n hm hn = hm
  Adds-if false m n hm hn = hn

  pub Adds-unmarshal_to : (decode : Json → Option A) (b : Body) → Adds P (unmarshal_to decode b)
  unfolding unmarshal_to
  Adds-unmarshal_to decode b = Adds-lift _ _

module _ {P : Event → Type 0} where
  pub Adds-require_ok : (o : Option Error) → Adds P (require_ok o)
  unfolding require_ok
  Adds-require_ok none = record { at = quiet }
  Adds-require_ok (some e) = record { at = quiet }

  pub Adds-sleep : (ms : ℕ) → P (slept ms) → Adds P (sleep ms)
  unfolding sleep
  Adds-sleep ms h = record { at = λ log. (slept ms ∷ [], refl, (h, tt)) }

  pub Adds-dial : (w : World) (url : String) → P (dialled url) → Adds P (dial w url)
  unfolding dial
  Adds-dial w url h = record { at = λ log. (dialled url ∷ [], refl, (h, tt)) }

  pub Adds-note : (e : Event) → P e → Adds P (note e)
  unfolding note
  Adds-note e h = record { at = λ log. (e ∷ [], refl, (h, tt)) }

  pub Adds-call : (w : World) (c : Call) → P (called c) → Adds P (call w c)
  unfolding call require_ok
  Adds-call w c h = record { at = λ log. go (w.call log c) log }
    where
      go :
          (o : Option Error) (log : List Event)
          → (new : List Event) × ((require_ok o (log ++ called c ∷ [])).1 ≡ log ++ new) × All P new
      go none log = (called c ∷ [], refl, (h, tt))
      go (some e) log = (called c ∷ [], refl, (h, tt))

  pub Adds-ensure : (b : Bool) (e : Error) → Adds P (ensure b e)
  unfolding ensure
  Adds-ensure true e = record { at = quiet }
  Adds-ensure false e = record { at = quiet }

module _ {P : Event → Type 0} {A B : Type 0} where
  joined :
      (f : A → Exec B) (r : Result A) (log log' new : List Event)
      → log' ≡ log ++ new
      → All P new
      → ((a : A) → r ≡ ok a → Adds P (f a))
      → (more : List Event) × ((Action.continue r f log').1 ≡ log ++ more) × All P more
  joined f (panicked text) log log' new same h hf = (new, same, h)
  joined f (err e) log log' new same h hf = (new, same, h)
  joined f (ok a) log log' new same h hf =
      let (later, grown, hl) = (hf a refl).at log' in
      (
        new ++ later,
        grown ∙ ap (λ l. l ++ later) same ∙ append_assoc log new later,
        All-append P new later h hl,
      )

  -- What follows may use that `m` has returned its argument.
  pub Adds-bind_of :
      (m : Exec A) (f : A → Exec B)
      → Adds P m
      → ((a : A) (log : List Event) → (m log).0 ≡ ok a → Adds P (f a))
      → Adds P (m >>= f)
  unfolding ◌>>=◌
  Adds-bind_of m f hm hf = record {
    at = λ log.
        let (new, same, h) = hm.at log in
        joined f (m log).0 log (m log).1 new same h (λ a e. hf a log e);
  }

  pub Adds-bind :
      (m : Exec A) (f : A → Exec B) → Adds P m → ((a : A) → Adds P (f a)) → Adds P (m >>= f)
  Adds-bind m f hm hf = Adds-bind_of m f hm (λ a _ _. hf a)

pub ruleset adds_rules = (
  Adds-pure, Adds-raise, Adds-panic, Adds-lift, Adds-attempt, Adds-if, Adds-require_ok, Adds-ensure,
  Adds-sleep, Adds-unmarshal_to, Adds-bind,
)

module _ {P : Event → Type 0} where
  Adds-filter_rows :
      (key : String) (filter : String → Exec Bool) (rows : List (Dict String))
      → ((s : String) → Adds P (filter s))
      → Adds P (filter_rows key filter rows)
  unfolding filter_rows
  Adds-filter_rows key filter [] h = search adds_rules
  Adds-filter_rows key filter (row ∷ rows) h =
      Adds-bind _ _ (h _)
        (λ keep. Adds-bind _ _ (Adds-filter_rows key filter rows h) (λ rest. Adds-pure _))

module _ {P : Event → Type 0} (w : World) (rc : RestClient) where
  pub Adds-send_request :
      (method : Method) (path : String) (payload : Option Json)
      → P (sent (request_of rc method path payload true))
      → Adds P (send_request w rc method path payload)
  unfolding send_request send_basic_request
  Adds-send_request method path payload h = record { at = λ log. (_ ∷ [], refl, (h, tt)) }

  pub Adds-get_array_data :
      (path key : String) (filter : String → Exec Bool)
      → P (sent (request_of rc Method.get path none true))
      → ((s : String) → Adds P (filter s))
      → Adds P (get_array_data w rc path key filter)
  unfolding get_array_data
  Adds-get_array_data path key filter h hf =
      search (adds_rules, Adds-send_request, Adds-filter_rows) depth 8
