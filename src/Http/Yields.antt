-- ===== src/Http/Yields.antt =====
-- Postconditions: what holds of the value of an action that succeeds.
use qubership_opensearch.Prelude.{
  String, ◌≡◌, refl, Bool, true, false, List, [], ◌∷◌, All, Dict, arith, if◌then◌else◌,
}
use qubership_opensearch.Http.Types.{Event, World, Error}
use qubership_opensearch.Http.Action.{Exec, Result, ok, err, panicked, continue, pure, raise, ◌>>=◌}
use qubership_opensearch.Http.Client.{RestClient, item_of, filter_rows, get_array_data}

abbrev pub OnOk : {A : Type 0} → (A → Type 0) → Result A → Type 0
OnOk P (ok a) = P a
OnOk P _ = Unit

pub record Yields {A : Type 0} (P : A → Type 0) (m : Exec A) : Type 0 where
  pub at : (log : List Event) → OnOk P (m log).0

-- Of any value something trivial holds.
pub Yields-any : {A : Type 0} (m : Exec A) → Yields (λ _. Unit {0}) m
Yields-any {A} m = record { at = λ log. go (m log).0 }
  where
    go : (r : Result A) → OnOk (λ _. Unit {0}) r
    go (ok a) = tt
    go (err e) = tt
    go (panicked text) = tt

module _ {A : Type 0} {P : A → Type 0} where
  pub Yields-pure : (a : A) → P a → Yields P (pure a)
  unfolding pure
  Yields-pure a h = record { at = λ log. h }

  pub Yields-raise : (e : Error) → Yields P (raise e)
  unfolding raise
  Yields-raise e = record { at = λ log. tt }

  pub Yields-if :
      (b : Bool) (m n : Exec A) → Yields P m → Yields P n → Yields P (if b then m else n)
  Yields-if true m n hm hn = hm
  Yields-if false m n hm hn = hn

module _ {A : Type 0} {P Q : A → Type 0} where
  OnOk-mono : (r : Result A) → ((a : A) → P a → Q a) → OnOk P r → OnOk Q r
  OnOk-mono (ok a) f h = f a h
  OnOk-mono (err e) f h = tt
  OnOk-mono (panicked text) f h = tt

  pub Yields-mono : {m : Exec A} → ((a : A) → P a → Q a) → Yields P m → Yields Q m
  Yields-mono {m} f h = record { at = λ log. OnOk-mono (m log).0 f (h.at log) }

module _ {A B : Type 0} {P : B → Type 0} where
  OnOk-continue :
      (f : A → Exec B) (r : Result A) (log : List Event)
      → ((a : A) → r ≡ ok a → Yields P (f a))
      → OnOk P (continue r f log).0
  OnOk-continue f (ok a) log h = (h a refl).at log
  OnOk-continue f (err e) log h = tt
  OnOk-continue f (panicked text) log h = tt

  pub Yields-bind : (m : Exec A) (f : A → Exec B) → ((a : A) → Yields P (f a)) → Yields P (m >>= f)
  unfolding ◌>>=◌
  Yields-bind m f h = record { at = λ log. OnOk-continue f (m log).0 (m log).1 (λ a _. h a) }

  -- The same with a fact about the first value.
  pub Yields-bind_of :
      {Q : A → Type 0} (m : Exec A) (f : A → Exec B)
      → Yields Q m
      → ((a : A) → Q a → Yields P (f a))
      → Yields P (m >>= f)
  unfolding ◌>>=◌
  Yields-bind_of {Q} m f hm h = record { at = λ log. go (m log).0 (m log).1 (hm.at log) }
    where
      go : (r : Result A) (log : List Event) → OnOk Q r → OnOk P (continue r f log).0
      go (ok a) log q = (h a q).at log
      go (err e) log q = tt
      go (panicked text) log q = tt

module _ (test : String → Bool) where
  keep-All :
      (item : String) (rest : List String)
      → All (λ s. test s ≡ true) rest
      → All (λ s. test s ≡ true) (if test item then item ∷ rest else rest)
  keep-All item rest h = ground arith

  filter_rows-Yields :
      (key : String) (rows : List (Dict String))
      → Yields (All (λ s. test s ≡ true)) (filter_rows key (λ s. pure (test s)) rows)
  unfolding filter_rows
  filter_rows-Yields key [] = Yields-pure _ tt
  filter_rows-Yields key (row ∷ rows) =
      Yields-bind_of {Q = λ b. b ≡ test (item_of key row)} _ _ (Yields-pure _ refl) λ keep same.
        Yields-bind_of _ _ (filter_rows-Yields key rows)
          λ rest h. Yields-pure _ (rw same (keep-All _ rest h))

  -- With a plain test as its filter, GetArrayData returns items that pass the test.
  pub get_array_data-Yields :
      (w : World) (rc : RestClient) (path key : String)
      → Yields (All (λ s. test s ≡ true)) (get_array_data w rc path key (λ s. pure (test s)))
  unfolding get_array_data
  get_array_data-Yields w rc path key =
      Yields-bind _ _
        λ reply. Yields-bind _ _ λ _. Yields-bind _ _ λ rows. filter_rows-Yields key rows
