-- ===== src/Types/DbPath/RoundTrip.antt =====
-- `parse` against `as_str`.
use alefsdb.Prelude.{
  subst₂, ◌⊎◌, subst, ℕ, ◌≡◌, ◌≢◌, refl, ap, ◌∙◌, sym, false, none, List, [], ◌∷◌, arith, ok,
  >>=-eq-ok, All, Option-cases, inl, inr,
}
use alefsdb.Bytes.{same_iff, Bytes, same}
use alefsdb.Types.DbPath.{
  DbPath, root, IsSegment, IsPath, parse, parse_segments, parse_trimmed, as_str, check_segment,
}
use alefsdb.Types.DbPath.Split.{
  split, join_with, trim_end, slash, contains, split-plain, split-append, trim_end-append,
  trim_end-plain, join_with-split, contains-split,
}

check_segment-IsSegment : (s : Bytes) → IsSegment s → check_segment s ≡ none
unfolding check_segment
check_segment-IsSegment [] h = absurd (h.filled refl)
check_segment-IsSegment (b ∷ bs) h = rw (h.no_dots, h.no_nul)

IsSegment-check_segment :
    (s : Bytes) → contains slash s ≡ false → check_segment s ≡ none → IsSegment s
unfolding check_segment
IsSegment-check_segment [] n h = cc
IsSegment-check_segment (b ∷ bs) n h = record {
  filled = cc;
  no_dots = ground arith;
  no_nul = ground arith;
  no_slash = n;
}

parse_segments-All : (ss : List Bytes) → All IsSegment ss → parse_segments ss ≡ ok ss
unfolding parse_segments
parse_segments-All [] a = refl
parse_segments-All (s ∷ ss) a =
    ground (arith, check_segment-IsSegment s a.0, parse_segments-All ss a.1)

parse_segments_sound :
    (ss ts : List Bytes)
    → All (λ s. contains slash s ≡ false) ss
    → parse_segments ss ≡ ok ts
    → (ts ≡ ss) × All IsSegment ss
unfolding parse_segments
parse_segments_sound [] ts a h = (cc, tt)
parse_segments_sound (s ∷ ss) ts a h = elim (Option-cases (check_segment s)) [
  | inl fine ↦
      let (rest, p, q) =
        >>=-eq-ok (parse_segments ss) (λ r. ok (s ∷ r)) (rw (fine, parse_segments) at h) in
      let (e, all) = parse_segments_sound ss rest a.1 p in
      (cc, (IsSegment-check_segment s a.0 fine, all))
  | inr (e, refused) ↦ absurd (cc (rw (refused, parse_segments) at h))
]

split-join_with :
    (s : Bytes) (ss : List Bytes)
    → All IsSegment (s ∷ ss)
    → split slash (join_with slash (s ∷ ss)) ≡ s ∷ ss
unfolding join_with
split-join_with s [] a = split-plain slash s a.0.no_slash
split-join_with s (t ∷ ts) a =
    split-append slash s (join_with slash (t ∷ ts)) a.0.no_slash
    ∙ ap (λ r. s ∷ r) (split-join_with t ts a.1)

join_with-ne-nil : (s : Bytes) (ss : List Bytes) → s ≢ [] → join_with slash (s ∷ ss) ≢ []
unfolding join_with
join_with-ne-nil s [] h = h
join_with-ne-nil [] (t ∷ ts) h = absurd (h refl)
join_with-ne-nil (b ∷ bs) (t ∷ ts) h = cc

trim_end-join_with :
    (s : Bytes) (ss : List Bytes)
    → All IsSegment (s ∷ ss)
    → trim_end slash (join_with slash (s ∷ ss)) ≡ join_with slash (s ∷ ss)
unfolding join_with
trim_end-join_with s [] a = trim_end-plain slash s a.0.no_slash
trim_end-join_with s (t ∷ ts) a =
    let r = join_with slash (t ∷ ts) in
    let kept : trim_end slash (slash ∷ r) ≡ slash ∷ r =
      trim_end-append slash (slash ∷ []) r (trim_end-join_with t ts a.1)
        (join_with-ne-nil t ts a.1.0.filled) in
    trim_end-append slash s (slash ∷ r) kept (cc)

pub parse-slash :
    (r : Bytes) → r ≢ [] → trim_end slash r ≡ r → parse (slash ∷ r) ≡ parse_trimmed (slash ∷ r)
unfolding parse same
parse-slash [] n h = absurd (n refl)
parse-slash (b ∷ bs) n h = rw (trim_end-append slash (slash ∷ []) (b ∷ bs) h n)

-- The text of a well-formed path parses to that path.
pub parse-as_str : (p : DbPath) → IsPath p → parse (as_str p) ≡ ok p
parse-as_str p h = go p.segments h
  where
    go :
        (ss : List Bytes)
        → All IsSegment ss
        → parse (as_str (record { segments = ss })) ≡ ok (record { segments = ss })
    go [] a = unfold parse as_str same in refl
    go (s ∷ ss) a =
        unfold as_str parse_trimmed in
        (parse-slash (join_with slash (s ∷ ss)) (join_with-ne-nil s ss a.0.filled)
            (trim_end-join_with s ss a)
          ∙ rw (split-join_with s ss a, parse_segments-All (s ∷ ss) a))

-- The text without trailing slashes, and `/` for a text of slashes.
abbrev pub or_slash : Bytes → Bytes
or_slash [] = slash ∷ []
or_slash (b ∷ r) = b ∷ r

abbrev pub canonical : Bytes → Bytes
canonical bs = or_slash (trim_end slash bs)

abbrev Parses : Bytes → DbPath → Type 0
Parses bs p = IsPath p × (as_str p ≡ canonical bs)

trim_end_head : (b : ℕ) (bs : Bytes) (c : ℕ) (r : Bytes) → trim_end slash (b ∷ bs) ≡ c ∷ r → c ≡ b
unfolding trim_end
trim_end_head b bs c r h = ground (arith)

as_str_lem : (ss : List Bytes) → as_str (record { segments = ss }) ≡ slash ∷ join_with slash ss
unfolding as_str join_with
as_str_lem [] = refl
as_str_lem (s ∷ ss) = refl

parse_trimmed_sound :
    (c : ℕ) (r : Bytes) (p : DbPath)
    → c ≡ slash
    → parse_trimmed (c ∷ r) ≡ ok p
    → IsPath p × (as_str p ≡ c ∷ r)
unfolding parse_trimmed
parse_trimmed_sound c r p e h =
    let (segs, parsed, made) =
      >>=-eq-ok (parse_segments (split slash r)) (λ ss. ok (record { segments = ss })) h in
    let (same_parts, all) =
      parse_segments_sound (split slash r) segs (contains-split slash r) parsed in
    let whole : record { segments = split slash r } ≡ p = cc (made, same_parts) in
    let shown : as_str (record { segments = split slash r }) ≡ c ∷ r =
      as_str_lem (split slash r) ∙ cc (join_with-split slash r) in
    (subst IsPath whole all, subst (λ q. as_str q ≡ c ∷ r) whole shown)

parse-ok :
    (b : ℕ) (bs : Bytes) (p : DbPath)
    → parse (b ∷ bs) ≡ ok p
    → (b ≡ slash)
      × (((b ∷ bs ≡ slash ∷ []) × (p ≡ root)) ⊎ (parse_trimmed (trim_end slash (b ∷ bs)) ≡ ok p))
unfolding parse
parse-ok b bs p h = ground (arith, same_iff (b ∷ bs) (slash ∷ []))

-- Whatever parses is a path of stored segments, and its text is the input without trailing slashes.
pub parse_sound : (bs : Bytes) (p : DbPath) → parse bs ≡ ok p → Parses bs p
parse_sound [] p h = unfold parse in cc
parse_sound (b ∷ bs) p h =
    let (e, how) = parse-ok b bs p h in
    elim how [
      | inl (whole, r) ↦ subst₂ Parses (sym whole) (sym r) (tt, unfold as_str trim_end in refl)
      | inr t ↦ trimmed (trim_end slash (b ∷ bs)) refl t e
    ]
  where
    trimmed :
        (t : Bytes)
        → trim_end slash (b ∷ bs) ≡ t
        → parse_trimmed t ≡ ok p
        → b ≡ slash
        → Parses (b ∷ bs) p
    trimmed [] q h e =
        let r : root ≡ p = unfold parse_trimmed in cc in
        subst (Parses (b ∷ bs)) r (tt, unfold as_str in sym (ap or_slash q))
    trimmed (c ∷ r) q h e =
        let (all, shown) = parse_trimmed_sound c r p (trim_end_head b bs c r q ∙ e) h in
        (all, shown ∙ sym (ap or_slash q))
