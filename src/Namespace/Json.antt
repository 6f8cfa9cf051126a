-- ===== src/Namespace/Json.antt =====
-- The JSON of exports and imports (crates/alefs-namespace/src/db.rs).
pub mod Hex
pub mod Print
pub mod Parse
pub mod Convert
pub mod Portable
pub mod Strings
pub mod Back
pub mod Steps
pub mod Texts
pub mod Rounds
pub mod Containers
pub mod RoundTrip
use alefsdb.Prelude.{ℕ, Bool}
use alefsdb.Prelude.Order.{ℤ}
use alefsdb.Bytes.{Bytes}

-- A number is an `i64`, a float the bits of an `f64`. `JsonItems` and `JsonFields` are the vectors.
mutual
  pub data JsonVal : Type 0 where
    json_null : JsonVal
    json_bool : Bool → JsonVal
    json_number : ℤ → JsonVal
    json_float : ℕ → JsonVal
    json_string : Bytes → JsonVal
    json_array : JsonItems → JsonVal
    json_object : JsonFields → JsonVal

  pub data JsonItems : Type 0 where
    no_json_items : JsonItems
    json_item : JsonVal → JsonItems → JsonItems

  pub data JsonFields : Type 0 where
    no_json_fields : JsonFields
    json_field : Bytes → JsonVal → JsonFields → JsonFields

-- The messages of the parser, with what each prints.
pub data JsonError : Type 0 where
  trailing_junk unexpected_eof expected_null expected_bool expected_string : JsonError
  bad_escape unterminated_string bad_float bad_int : JsonError
  expected_array_end expected_colon expected_object_end : JsonError
  unexpected : Bytes → JsonError
  -- only of the model
  out_of_fuel : JsonError

pub data HexError : Type 0 where
  odd_hex_length bad_hex : HexError
