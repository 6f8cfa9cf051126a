-- ===== src/Query/Execute.antt =====
-- `execute` with the walk of all entries (crates/alefs-query/src/eval.rs), on fuel: a unit for each
-- directory on the way down.
pub mod Sound
pub mod Complete
pub mod Indexed
use alefsdb.Prelude.{
  ℕ, zero, suc, Option, none, some, List, [], ◌∷◌, ◌++◌, Result, ok, err, ◌>>=◌, map_err,
}
use alefsdb.Bytes.{Bytes}
use alefsdb.Types.DbPath.{DbPath, root}
use alefsdb.Storage.Memory.{Storage}
use alefsdb.Namespace.Errors.{NsError}
use alefsdb.Namespace.Database.{EntryKind, directory, value_entry, Entry}
use alefsdb.Namespace.Walk.{WalkError, ns, out_of_fuel, each_child, entry_at, rows_at}
use alefsdb.Query.Ast.{Expr, QueryHit}
use alefsdb.Query.Parse.Tokens.{ParseError, ParseF64}
use alefsdb.Query.Parse.Parser.{parse_query}
use alefsdb.Query.Eval.{required_concrete_type, indexed_candidates, hits}

pub data EvalError : Type 0 where
  parse_error : ParseError → EvalError
  ns_error : WalkError → EvalError

unfoldable pub entries_of : List (Bytes × List Entry) → List Entry
entries_of [] = []
entries_of ((name, es) ∷ rest) = es ++ entries_of rest

module _ (S : Storage) (s : S.Store) where
  unfoldable pub walk : ℕ → DbPath → Result WalkError (List Entry)
  walk zero p = err out_of_fuel
  walk (suc f) p = entry_at S s p >>= λ e. elim e.kind [
    | directory ↦
        rows_at S s p >>= λ rows. each_child (walk f) p rows >>= λ below. ok (e ∷ entries_of below)
    | value_entry ↦ ok (e ∷ [])
  ]

  unfoldable pub all_entries : ℕ → Result WalkError (List Entry)
  all_entries fuel = walk fuel root

  unfoldable pub candidates_of : ℕ → Option Bytes → Result WalkError (List Entry)
  candidates_of fuel (some ty) = map_err (λ e. ns e) (indexed_candidates S s ty)
  candidates_of fuel none = all_entries fuel

  unfoldable pub candidates_for : ℕ → Expr → Result WalkError (List Entry)
  candidates_for fuel e = candidates_of fuel (required_concrete_type e)

  unfoldable pub evaluate : ℕ → Expr → Result EvalError (List QueryHit)
  evaluate fuel e =
      map_err (λ why. ns_error why) (candidates_for fuel e) >>= λ candidates. ok (hits e candidates)

  unfoldable pub execute : ParseF64 → ℕ → Bytes → Result EvalError (List QueryHit)
  execute parse_f64 fuel query =
      map_err (λ why. parse_error why) (parse_query parse_f64 query) >>= evaluate fuel
