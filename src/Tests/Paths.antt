-- ===== src/Tests/Paths.antt =====
-- Paths of crates/alefs-types/src/path.rs.
use alefsdb.Prelude.{◌≡◌, refl, [], ◌∷◌, ok, err, true, false, some}
use alefsdb.Bytes.{text, same}
use alefsdb.Types.DbPath.{
  DbPath, root, IsPath, parse, parse_segments, check_segment, is_dots, as_str, join, parent,
  last_segment, not_absolute, empty_segment, forbidden_segment, invalid_utf8,
}
use alefsdb.Types.DbPath.Split.{split, trim_end, contains}
use alefsdb.Types.DbPath.RoundTrip.{parse-as_str, parse_sound, canonical}
use alefsdb.Types.DbPath.Join.{join_sound, join_nul}

-- a and b
abbrev a_b : DbPath
a_b = record { segments = (97 ∷ []) ∷ (98 ∷ []) ∷ [] }

trims_trailing_slash : parse (text "/a/b/") ≡ ok a_b
unfolding parse parse_segments check_segment is_dots text same split trim_end contains
trims_trailing_slash = refl

rejects_relative : parse (text "a/b") ≡ err not_absolute
unfolding parse text
rejects_relative = refl

rejects_empty_segment : parse (text "/a//b") ≡ err empty_segment
unfolding parse parse_segments check_segment is_dots text same split trim_end contains
rejects_empty_segment = refl

rejects_dots : parse (text "/a/../b") ≡ err (forbidden_segment (text ".."))
unfolding parse parse_segments check_segment is_dots text same split trim_end contains
rejects_dots = refl

a_b-IsPath : IsPath a_b
unfolding is_dots contains same
a_b-IsPath = (
  record { filled = cc; no_dots = refl; no_nul = refl; no_slash = refl },
  (record { filled = cc; no_dots = refl; no_nul = refl; no_slash = refl }, tt),
)

parse-as_str_example : parse (as_str a_b) ≡ ok a_b
parse-as_str_example = parse-as_str a_b a_b-IsPath

parse_sound_example : IsPath a_b × (as_str a_b ≡ canonical (text "/a/b/"))
parse_sound_example = parse_sound (text "/a/b/") a_b trims_trailing_slash

abbrev a : DbPath
a = record { segments = (97 ∷ []) ∷ [] }

join-a : join a (98 ∷ []) ≡ ok a_b
unfolding join is_dots contains same
join-a = refl

join_sound_example :
    (parent a_b ≡ some a)
    × (last_segment a_b.segments ≡ some (98 ∷ []))
    × (IsPath a → contains 0 (98 ∷ []) ≡ false → IsPath a_b)
join_sound_example = join_sound a (98 ∷ []) a_b join-a

-- A segment of a letter and a NUL byte.
abbrev nul_path : DbPath
nul_path = record { segments = (97 ∷ 0 ∷ []) ∷ [] }

join_nul_segment : join root (97 ∷ 0 ∷ []) ≡ ok nul_path
unfolding join is_dots contains same
join_nul_segment = refl

nul_segment-contains : contains 0 (97 ∷ 0 ∷ []) ≡ true
unfolding contains
nul_segment-contains = refl

join_nul_example : parse (as_str nul_path) ≡ err invalid_utf8
join_nul_example = join_nul (97 ∷ 0 ∷ []) nul_path join_nul_segment nul_segment-contains
