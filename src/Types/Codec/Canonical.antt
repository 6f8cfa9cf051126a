-- ===== src/Types/Codec/Canonical.antt =====
-- The values in the form that `decode` returns, and that the encoding keeps: maps in the order of
-- their keys, sets in the order of their payloads, numbers and lengths that fit their fields.
use alefsdb.Prelude.{◌≡◌, ◌<◌, ◌^◌, Option, none, some, List, [], ◌∷◌, true, length}
use alefsdb.Prelude.Order.{list_ord, nat_ord}
use alefsdb.Prelude.OrdMap.{Sorted}
use alefsdb.Bytes.{Bytes, bytes_ord, valid_utf8}
use alefsdb.Bytes.Decimal.{IsI64}
use alefsdb.Types.Value.{
  Scalar, null, bool, int, float, string, bytes, Value, scalar, hash, set, list, tree, Items,
  no_items, item, Fields, no_fields, field, Entries, no_entries, entry, items, fields, entries,
}
use alefsdb.Types.Value.Order.{scalar_ord}
use Prim.Native.Nat.Ordering.{lt}
use alefsdb.Types.Codec.Encode.{payloads}

-- Each payload is above the one before it; `last` stands before the first.
abbrev pub Follows : Option Bytes → List Bytes → Type 0
Follows last [] = Unit
Follows none (p ∷ ps) = Follows (some p) ps
Follows (some q) (p ∷ ps) = (bytes_ord.cmp q p ≡ lt) × Follows (some p) ps

abbrev pub IsText : Bytes → Type 0
IsText s = (valid_utf8 s ≡ true) × (length s < 2 ^ 32)

abbrev pub IsScalar : Scalar → Type 0
IsScalar null = Unit
IsScalar (bool b) = Unit
IsScalar (int n) = IsI64 n
IsScalar (float bits) = bits < 2 ^ 64
IsScalar (string s) = IsText s
IsScalar (bytes b) = length b < 2 ^ 32

abbrev mutual
  pub IsCanonical : Value → Type 0
  IsCanonical (scalar s) = IsScalar s
  IsCanonical (hash m) = (length (fields m) < 2 ^ 32) × Sorted (fields m) × AllFields m
  IsCanonical (set m) = (length (items m) < 2 ^ 32) × Follows none (payloads m) × AllItems m
  IsCanonical (list m) = (length (items m) < 2 ^ 32) × AllItems m
  IsCanonical (tree m) = (length (entries m) < 2 ^ 32) × Sorted (entries m) × AllEntries m

  pub AllItems : Items → Type 0
  AllItems no_items = Unit
  AllItems (item v m) = IsCanonical v × AllItems m

  pub AllFields : Fields → Type 0
  AllFields no_fields = Unit
  AllFields (field k v m) = IsText k × IsCanonical v × AllFields m

  pub AllEntries : Entries → Type 0
  AllEntries no_entries = Unit
  AllEntries (entry k v m) = IsScalar k × IsCanonical v × AllEntries m
