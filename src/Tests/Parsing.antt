-- ===== src/Tests/Parsing.antt =====
-- The parser of queries, and the JSON of values.
use alefsdb.Prelude.{◌≡◌, ◌≢◌, refl, true, none, [], ◌∷◌, ok, err, map_err, ◌>>=◌, arith}
use alefsdb.Prelude.Order.{pos, negsuc, cmp_list}
use alefsdb.Bytes.{text}
use alefsdb.Types.Value.{
  Value, scalar, int, bool, string, bytes, hash, list, tree, item, no_items, field, no_fields,
  entry, no_entries, fields, entries,
}
use alefsdb.Query.Ast.{
  Expr, and_expr, or_expr, not_expr, pred, path_glob, size_cmp, gt_op, value_cmp, eq_op,
}
use alefsdb.Query.Parse.Tokens.{ParseF64, out_of_fuel}
use alefsdb.Query.Parse.Parser.{parse_query}
use alefsdb.Query.Parse.Print.{IsPrintable}
use alefsdb.Query.Parse.Written.{show_query}
use alefsdb.Query.Parse.RoundTrip.{parse_query-show_query}
use alefsdb.Query.Parse.Termination.Descent.{parse_query-total}
use alefsdb.Namespace.Errors.{invalid, bad_json}
use alefsdb.Namespace.Json.Print.{ShowF64, value_to_json}
use alefsdb.Namespace.Json.Parse.{parse_json_value}
use alefsdb.Namespace.Json.Convert.{json_to_value}
use alefsdb.Namespace.Json.Portable.{IsPortable}
use alefsdb.Namespace.Json.Hex.{encode_bytes, decode_bytes, decode_bytes-encode_bytes}
use alefsdb.Namespace.Json.RoundTrip.{json_to_value-value_to_json}

abbrev no_floats : ParseF64
no_floats s = none

abbrev no_text : ShowF64
no_text f = []

-- `path "/a\"" AND NOT (size > 3 OR value = -1)`
abbrev expr : Expr
expr =
    and_expr (pred (path_glob (text "/a\"")))
      (not_expr (or_expr (pred (size_cmp gt_op (pos 3))) (pred (value_cmp eq_op (int (negsuc 0))))))

expr-IsPrintable : IsPrintable expr
unfolding IsPrintable
expr-IsPrintable = (tt, (omega arith, omega arith))

parse_query-show_query_example : parse_query no_floats (show_query expr) ≡ ok expr
parse_query-show_query_example = parse_query-show_query no_floats expr expr-IsPrintable

parse_query-total_example : parse_query no_floats (text "NOT ((size > 3") ≢ err out_of_fuel
parse_query-total_example = parse_query-total no_floats (text "NOT ((size > 3")

-- A hash with a list, a tree and bytes.
abbrev value : Value
value = hash (
    field (text "a") (list (item (scalar (int (negsuc 4))) (item (scalar (bool true)) no_items))) (
      field (text "b") (tree (entry (int (pos 7)) (scalar (string (text "x\"y"))) no_entries))
        (field (text "c") (scalar (bytes (0 ∷ 255 ∷ []))) no_fields)))

value-IsPortable : IsPortable value
unfolding fields entries text cmp_list
value-IsPortable = (
  ((refl, (refl, tt)), ((refl, tt), (tt, tt))),
  (
    (omega arith, (tt, tt)),
    (((tt, tt), (omega arith, tt, tt)), ((omega arith, (omega arith, tt)), tt)),
  ),
)

json_to_value-value_to_json_example :
    (map_err (λ e. invalid (bad_json e)) (parse_json_value no_floats (value_to_json no_text value))
      >>= json_to_value no_floats)
    ≡ ok value
json_to_value-value_to_json_example =
    json_to_value-value_to_json no_text no_floats value value-IsPortable

decode_bytes-encode_bytes_example :
    decode_bytes (encode_bytes (0 ∷ 171 ∷ 255 ∷ [])) ≡ ok (0 ∷ 171 ∷ 255 ∷ [])
decode_bytes-encode_bytes_example =
    decode_bytes-encode_bytes (0 ∷ 171 ∷ 255 ∷ []) (omega arith, (omega arith, (omega arith, tt)))
