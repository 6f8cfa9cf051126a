-- ===== src/Query/Eval/Index.antt =====
-- The type that `required_concrete_type` (crates/alefs-query/src/eval.rs) finds in an expression.
use alefsdb.Prelude.{
  ◌≡◌, refl, ◌∙◌, Bool, true, false, ◌&&◌, Option, none, some, arith, ◌⊎◌, inl, inr, Bool-cases,
}
use alefsdb.Bytes.{Bytes, text, same, same_iff}
use alefsdb.Types.Value.{Value}
use alefsdb.Types.DbPath.{DbPath}
use alefsdb.Namespace.Database.{EntryKind, directory, value_entry}
use alefsdb.Query.Ast.{Expr, and_expr, or_expr, not_expr, pred, type_name}
use alefsdb.Query.Predicates.{eval_pred, eval_type_name, type_matches}
use alefsdb.Query.Eval.{eval_expr, common_type, required_concrete_type, hit_type}

type_hit :
    (t : Bytes) (kind : EntryKind) (v : Option Value)
    → same t (text "scalar") ≡ false
    → eval_type_name t kind v ≡ true
    → hit_type kind v ≡ t
unfolding eval_type_name type_matches hit_type
type_hit t directory none n h = (same_iff _ t).0 (rw n at h)
type_hit t directory (some v) n h = (same_iff _ t).0 (rw n at h)
type_hit t value_entry (some v) n h = (same_iff _ t).0 (rw n at h)
type_hit t value_entry none n h = (same_iff _ t).0 (rw n at h)

common_type-some :
    (a b : Option Bytes) (t : Bytes) → common_type a b ≡ some t → (a ≡ some t) ⊎ (b ≡ some t)
unfolding common_type
common_type-some (some s) none t h = inl h
common_type-some none (some u) t h = inr h
common_type-some (some s) (some u) t h = inl (ground arith)
common_type-some none none t h = absurd (cc h)

and-true : (a b : Bool) → a && b ≡ true → (a ≡ true) × (b ≡ true)
and-true true b h = (refl, h)
and-true false b h = absurd (cc h)

-- An expression that requires a type holds only of entries of that type.
pub required_concrete_type_sound :
    (e : Expr) (t : Bytes) (p : DbPath) (kind : EntryKind) (v : Option Value)
    → required_concrete_type e ≡ some t
    → eval_expr e p kind v ≡ true
    → hit_type kind v ≡ t
unfolding required_concrete_type eval_expr eval_pred
required_concrete_type_sound (and_expr a b) t p kind v r h =
    let both = and-true (eval_expr a p kind v) (eval_expr b p kind v) h in
    elim (common_type-some (required_concrete_type a) (required_concrete_type b) t r) [
      | inl q ↦ required_concrete_type_sound a t p kind v q both.0
      | inr q ↦ required_concrete_type_sound b t p kind v q both.1
    ]
required_concrete_type_sound (or_expr a b) t p kind v r h = absurd (cc r)
required_concrete_type_sound (not_expr a) t p kind v r h = absurd (cc r)
required_concrete_type_sound (pred (type_name s)) t p kind v r h =
    elim (Bool-cases (same s (text "scalar"))) [
      | inl n ↦ absurd (cc (rw n at r))
      | inr n ↦ type_hit s kind v n h ∙ cc (rw n at r)
    ]
required_concrete_type_sound (pred q) t p kind v r h = absurd (cc r)
