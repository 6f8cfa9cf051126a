-- ===== src/Tests/Queries.antt =====
-- Globs and expressions of crates/alefs-query/src.
use alefsdb.Prelude.{◌≡◌, ◌↔◌, refl, true, some, [], ◌∷◌}
use alefsdb.Prelude.Order.{pos}
use alefsdb.Bytes.{text, same}
use alefsdb.Types.Value.{scalar, int}
use alefsdb.Namespace.Database.{Entry, value_entry}
use alefsdb.Query.Ast.{Expr, and_expr, not_expr, pred, type_name, value_cmp, name_glob, ge_op}
use alefsdb.Query.Glob.{
  chars, glob_rec, glob_match, path_glob_match, match_segments, any_suffix, step, filled,
}
use alefsdb.Query.Glob.Matches.{Glob, Segments, glob_rec_iff, match_segments_iff}
use alefsdb.Query.Eval.{required_concrete_type, common_type}
use alefsdb.Query.Eval.{eval_expr, hit_type}
use alefsdb.Types.Value.Order.{cmp_scalar}
use alefsdb.Prelude.Order.{cmp_list}
use alefsdb.Types.DbPath.{last_segment}
use alefsdb.Query.Predicates.{
  eval_value_cmp, compare_scalar, eval_pred, eval_type_name, type_matches,
}
use alefsdb.Types.Value.{typename}
use alefsdb.Query.Eval.Index.{required_concrete_type_sound}
use alefsdb.Types.DbPath.Split.{split}

deep_glob : path_glob_match (text "/users/**/a?.*") (text "/users/x/y/ab.txt") ≡ true
unfolding path_glob_match same text filled split match_segments any_suffix step glob_match glob_rec
    chars
deep_glob = refl

glob_rec_iff_example :
    (glob_rec (chars (text "a*c?")) (chars (text "abbcd")) ≡ true)
    ↔ Glob (chars (text "a*c?")) (chars (text "abbcd"))
glob_rec_iff_example = glob_rec_iff (chars (text "a*c?")) (chars (text "abbcd"))

match_segments_iff_example :
    (match_segments (text "**" ∷ text "x" ∷ []) (text "u" ∷ text "v" ∷ text "x" ∷ []) ≡ true)
    ↔ Segments (text "**" ∷ text "x" ∷ []) (text "u" ∷ text "v" ∷ text "x" ∷ [])
match_segments_iff_example =
    match_segments_iff (text "**" ∷ text "x" ∷ []) (text "u" ∷ text "v" ∷ text "x" ∷ [])

-- `type int AND value >= 3 AND NOT name x*`
abbrev query : Expr
query =
    and_expr (and_expr (pred (type_name (text "int"))) (pred (value_cmp ge_op (int (pos 3)))))
      (not_expr (pred (name_glob (text "x*"))))

query-int : required_concrete_type query ≡ some (text "int")
unfolding required_concrete_type common_type same text
query-int = refl

abbrev entry_n : Entry
entry_n = record {
  path = record { segments = text "n" ∷ [] };
  kind = value_entry;
  value = some (scalar (int (pos 3)));
}

query-holds : eval_expr query entry_n.path entry_n.kind entry_n.value ≡ true
unfolding eval_expr eval_pred eval_type_name type_matches same text typename eval_value_cmp
    compare_scalar cmp_scalar cmp_list glob_match glob_rec chars step last_segment
query-holds = refl

required_concrete_type_sound_example : hit_type entry_n.kind entry_n.value ≡ text "int"
required_concrete_type_sound_example =
    required_concrete_type_sound query (text "int") entry_n.path entry_n.kind entry_n.value
      query-int query-holds
