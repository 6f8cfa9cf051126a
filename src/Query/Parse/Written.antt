-- ===== src/Query/Parse/Written.antt =====
-- Tokens as text, each with a blank behind it.
use alefsdb.Prelude.{ℕ, ◌≡◌, ◌==◌, Bool, true, ◌||◌, List, [], ◌∷◌, ◌++◌, All, if◌then◌else◌}
use alefsdb.Bytes.{Bytes}
use alefsdb.Bytes.Decimal.{show_i64, IsI64}
use alefsdb.Query.Ast.{CmpOp, Expr}
use alefsdb.Query.Parse.Tokens.{
  Tok, ident, string_tok, op, int_tok, float_tok, lparen, rparen, starts_ident, in_ident,
}
use alefsdb.Query.Parse.Print.{cmp_text, whole, put}

abbrev pub needs_escape : ℕ → Bool
needs_escape b = b == b'"' || b == b'\\'

unfoldable pub escape : Bytes → Bytes
escape [] = []
escape (b ∷ bs) = let rest = escape bs in if needs_escape b then b'\\' ∷ b ∷ rest else b ∷ rest

-- A float has no text here.
unfoldable pub show_token : Tok → Bytes
show_token (ident s) = s
show_token (string_tok s) = b'"' ∷ (escape s ++ b'"' ∷ [])
show_token (op s) = s
show_token (int_tok n) = show_i64 n
show_token (float_tok f) = []
show_token lparen = b'(' ∷ []
show_token rparen = b')' ∷ []

unfoldable pub show_tokens : List Tok → Bytes
show_tokens [] = []
show_tokens (t ∷ ts) = show_token t ++ b' ' ∷ show_tokens ts

-- The text of an expression.
unfoldable pub show_query : Expr → Bytes
show_query e = show_tokens (put whole e [])

abbrev pub IsWord : Bytes → Type 0
IsWord [] = ⊥
IsWord (c ∷ cs) = (starts_ident c ≡ true) × All (λ b. in_ident b ≡ true) cs

-- A token that its text determines.
unfoldable pub IsPlain : Tok → Type 0
IsPlain (ident s) = IsWord s
IsPlain (string_tok s) = Unit {0}
IsPlain (op s) = (o : CmpOp) × (s ≡ cmp_text o)
IsPlain (int_tok n) = IsI64 n
IsPlain (float_tok f) = ⊥
IsPlain lparen = Unit {0}
IsPlain rparen = Unit {0}
