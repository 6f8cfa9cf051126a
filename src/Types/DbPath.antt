-- ===== src/Types/DbPath.antt =====
-- Absolute database paths (crates/alefs-types/src/path.rs). The proofs are in the modules below.
pub mod Split
pub mod RoundTrip
pub mod Join
use alefsdb.Prelude.{
  ℕ, ◌≡◌, ◌≢◌, Bool, true, false, not, ◌||◌, Option, none, some, List, [], ◌∷◌, ◌++◌, ◌==◌,
  if◌then◌else◌, Result, ok, err, ◌>>=◌, All,
}
use alefsdb.Bytes.{Bytes, text, same}
unfoldable pub use Split.{split, join_with, trim_end, contains, slash}

-- Path segments after the root. Empty means `/`.
pub record DbPath : Type 0 where
  pub segments : List Bytes

pub data PathError : Type 0 where
  empty not_absolute empty_segment : PathError
  forbidden_segment : Bytes → PathError
  invalid_utf8 : PathError

abbrev pub root : DbPath
root = record { segments = [] }

unfoldable pub is_root : DbPath → Bool
is_root p = elim (p.segments) [ [] ↦ true | s ∷ ss ↦ false ]

-- `seg == "." || seg == ".."`
unfoldable pub is_dots : Bytes → Bool
is_dots seg = same seg (b'.' ∷ []) || same seg (b'.' ∷ b'.' ∷ [])

-- The tests of one segment in the loop of `parse`.
unfoldable pub check_segment : Bytes → Option PathError
check_segment [] = some empty_segment
check_segment (b ∷ bs) =
    if is_dots (b ∷ bs)
    then some (forbidden_segment (b ∷ bs))
    else if contains 0 (b ∷ bs)
    then some invalid_utf8
    else none

-- The loop of `parse` over the parts between slashes; it returns the segments that it pushes.
unfoldable pub parse_segments : List Bytes → Result PathError (List Bytes)
parse_segments [] = ok []
parse_segments (seg ∷ rest) = elim (check_segment seg) [
  | some e ↦ err e
  | none ↦ parse_segments rest >>= λ segments. ok (seg ∷ segments)
]

-- `trimmed[1..]` drops the leading slash.
unfoldable pub parse_trimmed : Bytes → Result PathError DbPath
parse_trimmed [] = ok root
parse_trimmed (b ∷ rest) = do
  segments ← parse_segments (split slash rest)
  ok (record { segments = segments })

unfoldable pub parse : Bytes → Result PathError DbPath
unfolding parse_trimmed
parse [] = err empty
parse (b ∷ bs) =
    if not (b == slash)
    then err not_absolute
    else if same (b ∷ bs) (slash ∷ [])
    then ok root
    else parse_trimmed (trim_end slash (b ∷ bs))

unfoldable pub as_str : DbPath → Bytes
as_str p = elim (p.segments) [ [] ↦ slash ∷ [] | s ∷ ss ↦ slash ∷ join_with slash (s ∷ ss) ]

unfoldable pub join : DbPath → Bytes → Result PathError DbPath
join p [] = err empty_segment
join p (b ∷ bs) =
    if is_dots (b ∷ bs) || contains slash (b ∷ bs)
    then err (forbidden_segment (b ∷ bs))
    else ok (record { segments = p.segments ++ (b ∷ bs) ∷ [] })

-- `segments.pop()` on a vector that is not empty.
unfoldable pub drop_last : List Bytes → List Bytes
drop_last [] = []
drop_last (s ∷ ss) = elim ss [ [] ↦ [] | t ∷ ts ↦ s ∷ drop_last ss ]

unfoldable pub parent : DbPath → Option DbPath
unfolding drop_last
parent p = elim (p.segments) [
  | [] ↦ none
  | s ∷ ss ↦ some (record { segments = drop_last (s ∷ ss) })
]

-- `path.segments().last()`
unfoldable pub last_segment : List Bytes → Option Bytes
last_segment [] = none
last_segment (s ∷ ss) = elim ss [ [] ↦ some s | t ∷ ts ↦ last_segment ss ]

-- A stored segment: not empty, no `.` or `..`, no NUL byte, no slash.
pub record IsSegment (s : Bytes) : Type 0 where
  pub filled : s ≢ []
  pub no_dots : is_dots s ≡ false
  pub no_nul : contains 0 s ≡ false
  pub no_slash : contains slash s ≡ false

abbrev pub IsPath : DbPath → Type 0
IsPath p = All IsSegment p.segments
