-- ===== src/Json.antt =====
-- JSON documents and what encoding/json's Unmarshal makes of them at the types that the program
-- decodes into. A document is a tree; a body that is no JSON has none (Http.Body).
-- Unmarshal leaves a field at its zero value where the key is missing or `null`, and fails on a
-- value of another kind. Of two fields with one key the later wins. Keys are compared exactly.
use qubership_opensearch.Prelude.{
  String, Bool, Option, none, some, List, [], ◌∷◌, ◌==◌, if◌then◌else◌, Dict, insert,
}
use qubership_opensearch.Prelude.Int.{ℤ, pos}

mutual
  pub data Json : Type 0 where
    null : Json
    bool : Bool → Json
    num : ℤ → Json
    str : String → Json
    arr : Items → Json
    obj : Fields → Json

  pub data Items : Type 0 where
    nil : Items
    cons : Json → Items → Items

  pub data Fields : Type 0 where
    end : Fields
    field : String → Json → Fields → Fields

infixl 5 ◌>>=◌
abbrev ◌>>=◌ {ℓ κ} : {A : Type ℓ} {B : Type κ} → Option A → (A → Option B) → Option B
none >>= f = none
some a >>= f = f a

-- The last field of that key.
unfoldable pub find : String → Fields → Option Json
find k end = none
find k (field j v fs) =
    let here = if j == k then some v else none in elim (find k fs) [ none ↦ here | some w ↦ some w ]

-- The fields of a struct or map: `null` leaves it as it is.
unfoldable pub fields : Json → Option Fields
fields null = some end
fields (obj fs) = some fs
fields _ = none

unfoldable pub decode_text : Json → Option String
decode_text null = some ""
decode_text (str s) = some s
decode_text _ = none

unfoldable pub decode_int : Json → Option ℤ
decode_int null = some (pos 0)
decode_int (num z) = some z
decode_int _ = none

-- A field of a struct, with the zero value of its type.
unfoldable pub get_field {ℓ} : {A : Type ℓ} → (Json → Option A) → A → String → Fields → Option A
unfolding find
get_field decode zero_value k fs = elim (find k fs) [ none ↦ some zero_value | some v ↦ decode v ]

unfoldable pub text_field : String → Fields → Option String
unfolding get_field decode_text
text_field = get_field decode_text ""

unfoldable pub int_field : String → Fields → Option ℤ
unfolding get_field decode_int
int_field = get_field decode_int (pos 0)

module _ {ℓ} {A : Type ℓ} (decode : Json → Option A) where
  decode_items : Items → Option (List A)
  decode_items nil = some []
  decode_items (cons v vs) = do a ← decode v; as' ← decode_items vs; some (a ∷ as')

  -- A slice.
  unfoldable pub decode_list : Json → Option (List A)
  unfolding decode_items
  decode_list null = some []
  decode_list (arr vs) = decode_items vs
  decode_list _ = none

  decode_fields : Dict A → Fields → Option (Dict A)
  decode_fields d end = some d
  decode_fields d (field k v fs) = do a ← decode v; decode_fields (insert k a d) fs

  -- A map with text keys.
  unfoldable pub decode_map : Json → Option (Dict A)
  unfolding decode_fields
  decode_map null = some []
  decode_map (obj fs) = decode_fields [] fs
  decode_map _ = none

-- A nested struct, decoded from its fields.
unfoldable pub struct {ℓ} : {A : Type ℓ} → (Fields → Option A) → Json → Option A
unfolding fields
struct decode v = do fs ← fields v; decode fs

-- `interface{}`: any value.
unfoldable pub decode_any : Json → Option Json
decode_any v = some v

-- `struct{}`: an object, whatever its fields.
unfoldable pub decode_unit : Json → Option (Unit {0})
unfolding struct
decode_unit = struct (λ _. some tt)

-- Documents that the program writes.
abbrev pub object : Dict Json → Json
object d = obj (write d)
  where
    write : Dict Json → Fields
    write [] = end
    write ((k, v) ∷ d) = field k v (write d)

abbrev pub array : List Json → Json
array vs = arr (write vs)
  where
    write : List Json → Items
    write [] = nil
    write (v ∷ vs) = cons v (write vs)

abbrev pub texts : List String → Json
texts ss = arr (write ss)
  where
    write : List String → Items
    write [] = nil
    write (s ∷ ss) = cons (str s) (write ss)
