-- ===== src/Types/DbPath/Join.antt =====
-- `join` against `parent` and `parse`.
use alefsdb.Prelude.{
  ◌≡◌, ◌≢◌, refl, ap, ◌∙◌, true, false, some, List, [], ◌∷◌, ◌++◌, arith, ok, err, All,
}
use alefsdb.Bytes.{Bytes}
use alefsdb.Types.DbPath.{
  DbPath, root, IsSegment, IsPath, parse, join, parent, drop_last, last_segment, as_str, is_dots,
  invalid_utf8, parse_segments, check_segment, parse_trimmed,
}
use alefsdb.Types.DbPath.Split.{slash, join_with, contains, split-plain, trim_end-plain}
use alefsdb.Types.DbPath.RoundTrip.{parse-slash}

drop_last-append : (ss : List Bytes) (s : Bytes) → drop_last (ss ++ s ∷ []) ≡ ss
unfolding drop_last
drop_last-append [] s = refl
drop_last-append (t ∷ []) s = refl
drop_last-append (t ∷ u ∷ us) s = ap (λ r. t ∷ r) (drop_last-append (u ∷ us) s)

pub last_segment-append : (ss : List Bytes) (s : Bytes) → last_segment (ss ++ s ∷ []) ≡ some s
unfolding last_segment
last_segment-append [] s = refl
last_segment-append (t ∷ []) s = refl
last_segment-append (t ∷ u ∷ us) s = last_segment-append (u ∷ us) s

All-append :
    (ss : List Bytes) (s : Bytes) → All IsSegment ss → IsSegment s → All IsSegment (ss ++ s ∷ [])
All-append [] s a h = (h, tt)
All-append (t ∷ ts) s a h = (a.0, All-append ts s a.1 h)

join-eq-ok :
    (p : DbPath) (s : Bytes) (q : DbPath)
    → join p s ≡ ok q
    → (q ≡ record { segments = p.segments ++ s ∷ [] })
      × (s ≢ [])
      × (is_dots s ≡ false)
      × (contains slash s ≡ false)
unfolding join
join-eq-ok p [] q h = cc
join-eq-ok p (b ∷ bs) q h = ground arith

parent-append :
    (ss : List Bytes) (s : Bytes)
    → parent (record { segments = ss ++ s ∷ [] }) ≡ some (record { segments = ss })
unfolding parent
parent-append [] s = refl
parent-append (t ∷ ts) s = ap (λ r. some (record { segments = r })) (drop_last-append (t ∷ ts) s)

-- A path that `join` returns has the segment as its last, and the path that was joined as its
-- parent; it is well formed if that was and if the segment has no NUL byte.
pub join_sound :
    (p : DbPath) (s : Bytes) (q : DbPath)
    → join p s ≡ ok q
    → (parent q ≡ some p)
      × (last_segment q.segments ≡ some s)
      × (IsPath p → contains 0 s ≡ false → IsPath q)
join_sound p s q h =
    let (e, filled, dots, slashes) = join-eq-ok p s q h in
    rw e (
      parent-append p.segments s,
      last_segment-append p.segments s,
      λ a nul.
          All-append p.segments s a
            (record { filled = filled; no_dots = dots; no_nul = nul; no_slash = slashes }),
    )

check_segment-nul :
    (s : Bytes)
    → s ≢ []
    → is_dots s ≡ false
    → contains 0 s ≡ true
    → check_segment s ≡ some invalid_utf8
unfolding check_segment
check_segment-nul [] n d h = absurd (n refl)
check_segment-nul (b ∷ bs) n d h = rw (d, h)

parse_segments-nul :
    (s : Bytes) → check_segment s ≡ some invalid_utf8 → parse_segments (s ∷ []) ≡ err invalid_utf8
unfolding parse_segments
parse_segments-nul s h = ground arith

-- A segment with a NUL byte that `join` accepts at the root gives a path whose text `parse` refuses.
pub join_nul :
    (s : Bytes) (q : DbPath)
    → join root s ≡ ok q
    → contains 0 s ≡ true
    → parse (as_str q) ≡ err invalid_utf8
join_nul s q h nul =
    let (e, filled, dots, slashes) = join-eq-ok root s q h in
    rw e (
      unfold as_str join_with parse_trimmed in
      (parse-slash s filled (trim_end-plain slash s slashes)
        ∙ rw (
          split-plain slash s slashes,
          parse_segments-nul s (check_segment-nul s filled dots nul),
        )))
