-- ===== src/Types/Value.antt =====
-- Typed values (crates/alefs-types/src/value.rs), with the two maps inside a value.
pub mod Order
use alefsdb.Prelude.{ℕ, ◌≡◌, refl, ap, Bool, List, [], ◌∷◌}
use alefsdb.Prelude.Order.{ℤ}
use alefsdb.Bytes.{Bytes, text}
use alefsdb.Prelude.OrdMap.{OrdMap}

-- `int` holds an `i64`, `float` the 64 bits of an `f64`, `string` the bytes of a `String`.
pub data Scalar : Type 0 where
  null : Scalar
  bool : Bool → Scalar
  int : ℤ → Scalar
  float : ℕ → Scalar
  string : Bytes → Scalar
  bytes : Bytes → Scalar

-- `Items` is `Vec<Value>`, `Fields` a `BTreeMap<String, Value>` and `Entries` a
-- `BTreeMap<Scalar, Value>`, each map in the order of its keys.
mutual
  pub data Value : Type 0 where
    scalar : Scalar → Value
    hash : Fields → Value
    set : Items → Value
    list : Items → Value
    tree : Entries → Value

  pub data Items : Type 0 where
    no_items : Items
    item : Value → Items → Items

  pub data Fields : Type 0 where
    no_fields : Fields
    field : Bytes → Value → Fields → Fields

  pub data Entries : Type 0 where
    no_entries : Entries
    entry : Scalar → Value → Entries → Entries

-- The views of the containers as the library's lists.
unfoldable pub items : Items → List Value
items no_items = []
items (item v xs) = v ∷ items xs

unfoldable pub of_items : List Value → Items
of_items [] = no_items
of_items (v ∷ xs) = item v (of_items xs)

unfoldable pub fields : Fields → OrdMap Bytes Value
fields no_fields = []
fields (field k v m) = (k, v) ∷ fields m

unfoldable pub of_fields : OrdMap Bytes Value → Fields
of_fields [] = no_fields
of_fields ((k, v) ∷ m) = field k v (of_fields m)

unfoldable pub entries : Entries → OrdMap Scalar Value
entries no_entries = []
entries (entry k v m) = (k, v) ∷ entries m

unfoldable pub of_entries : OrdMap Scalar Value → Entries
of_entries [] = no_entries
of_entries ((k, v) ∷ m) = entry k v (of_entries m)

pub of_items-items : (xs : Items) → of_items (items xs) ≡ xs
unfolding items of_items
of_items-items no_items = refl
of_items-items (item v xs) = ap (item v) (of_items-items xs)

pub of_fields-fields : (m : Fields) → of_fields (fields m) ≡ m
unfolding fields of_fields
of_fields-fields no_fields = refl
of_fields-fields (field k v m) = ap (field k v) (of_fields-fields m)

pub of_entries-entries : (m : Entries) → of_entries (entries m) ≡ m
unfolding entries of_entries
of_entries-entries no_entries = refl
of_entries-entries (entry k v m) = ap (entry k v) (of_entries-entries m)

pub fields-of_fields : (m : OrdMap Bytes Value) → fields (of_fields m) ≡ m
unfolding fields of_fields
fields-of_fields [] = refl
fields-of_fields ((k, v) ∷ m) = ap (λ r. (k, v) ∷ r) (fields-of_fields m)

pub entries-of_entries : (m : OrdMap Scalar Value) → entries (of_entries m) ≡ m
unfolding entries of_entries
entries-of_entries [] = refl
entries-of_entries ((k, v) ∷ m) = ap (λ r. (k, v) ∷ r) (entries-of_entries m)

unfoldable pub typename : Value → Bytes
typename (scalar null) = text "null"
typename (scalar (bool b)) = text "bool"
typename (scalar (int n)) = text "int"
typename (scalar (float f)) = text "float"
typename (scalar (string s)) = text "string"
typename (scalar (bytes b)) = text "bytes"
typename (hash m) = text "hash"
typename (set m) = text "set"
typename (list m) = text "list"
typename (tree m) = text "tree"
