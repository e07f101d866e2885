-- ===== src/Adapter/Trace.antt =====
-- What the requests of the adapter add to the events.
use qubership_opensearch.Prelude.{String, Bool, ◌==◌, eqb, Option, [], ◌∷◌, refl}
use qubership_opensearch.Json.{Json}
use qubership_opensearch.Http.{
  Method, Event, sent, Outcome, failed, broken, answered, World, Error, Exec,
}
use qubership_opensearch.Http.Trace.{Adds, Adds-pure, Adds-raise, Adds-if, Adds-unmarshal_to}
use qubership_opensearch.Adapter.Transport.{request_to, perform, process_body}
use qubership_opensearch.Adapter.Resources.{found_of}

module _ {P : Event → Type 0} where
  pub Adds-perform :
      (w : World) (m : Method) (path : String) (payload : Option Json) (json_headers : Bool)
      → P (sent (request_to m path payload json_headers))
      → Adds P (perform w m path payload json_headers)
  unfolding perform
  Adds-perform w m path payload json_headers h = record { at = λ log. (_ ∷ [], refl, (h, tt)) }

  pub Adds-process_body :
      {A : Type 0} (decode : Json → Option A) (zero_value : A) (outcome : Outcome)
      → Adds P (process_body decode zero_value outcome)
  unfolding process_body
  Adds-process_body decode zero_value (failed e) = Adds-raise e
  Adds-process_body decode zero_value (broken code e) = Adds-raise e
  Adds-process_body decode zero_value (answered code b) =
      Adds-if (b.text == "") _ _ (Adds-pure _) (Adds-unmarshal_to decode b)

  pub Adds-found_of :
      {A : Type 0} (wrap : Error → Error) (e : Error) (missing : A) (read : Exec A)
      (outcome : Outcome)
      → Adds P read
      → Adds P (found_of wrap e missing read outcome)
  unfolding found_of
  Adds-found_of wrap e missing read (failed d) h = Adds-raise _
  Adds-found_of wrap e missing read (broken code d) h =
      Adds-if (eqb code 200) _ _ h (Adds-if (eqb code 404) _ _ (Adds-pure _) (Adds-raise _))
  Adds-found_of wrap e missing read (answered code b) h =
      Adds-if (eqb code 200) _ _ h (Adds-if (eqb code 404) _ _ (Adds-pure _) (Adds-raise _))
