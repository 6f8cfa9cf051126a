-- ===== src/Query/Glob/Matches.antt =====
-- The paths and names that a glob matches, as relations, against the loops.
use alefsdb.Prelude.{
  ◌≡◌, ◌≢◌, ◌↔◌, refl, ap, ◌∙◌, sym, subst, Bool, true, false, ◌||◌, List, [], ◌∷◌, ◌++◌,
  append-nil, subst₂, arith, inl, inr, Bool-cases,
}
use alefsdb.Prelude.Order.{nat_ord, list_ord}
use alefsdb.Bytes.{Bytes, same, same_iff, same_refl}
use alefsdb.Query.Glob.{
  star, question, double_star, is_nil, any_suffix, step, glob_rec, glob_match, match_segments,
}

-- A star stands for any characters, a question mark for one, and any other for itself.
pub data Glob : List Bytes → List Bytes → Type 0 where
  glob_end : Glob [] []
  glob_star : {p t : List Bytes} (skipped : List Bytes) → Glob p t → Glob (star ∷ p) (skipped ++ t)
  glob_any : {p t : List Bytes} (x : Bytes) → Glob p t → Glob (question ∷ p) (x ∷ t)
  glob_char :
      {p t : List Bytes} (c : Bytes) → c ≢ star → c ≢ question → Glob p t → Glob (c ∷ p) (c ∷ t)

-- A double star stands for any segments, and any other glob for one segment that it matches.
pub data Segments : List Bytes → List Bytes → Type 0 where
  path_end : Segments [] []
  path_deep :
      {p t : List Bytes} (skipped : List Bytes)
      → Segments p t
      → Segments (double_star ∷ p) (skipped ++ t)
  path_step :
      {p t : List Bytes} (g s : Bytes)
      → g ≢ double_star
      → glob_match g s ≡ true
      → Segments p t
      → Segments (g ∷ p) (s ∷ t)

-- The loop finds a suffix that passes the test.
any_suffix-found {ℓ} :
    {A : Type ℓ} (test : List A → Bool) (t : List A)
    → any_suffix test t ≡ true
    → (skipped : List A) × (rest : List A) × (skipped ++ rest ≡ t) × (test rest ≡ true)
unfolding any_suffix
any_suffix-found test [] h = ([], [], refl, h)
any_suffix-found test (x ∷ xs) h = elim (Bool-cases (test (x ∷ xs))) [
  | inl e ↦ ([], x ∷ xs, refl, e)
  | inr e ↦
      let (skipped, rest, q, g) = any_suffix-found test xs (rw e at h) in
      (x ∷ skipped, rest, ap (λ r. x ∷ r) q, g)
]

-- A suffix that passes is found.
any_suffix-append {ℓ} :
    {A : Type ℓ} (test : List A → Bool) (skipped t : List A)
    → test t ≡ true
    → any_suffix test (skipped ++ t) ≡ true
unfolding any_suffix
any_suffix-append test [] [] h = h
any_suffix-append test [] (x ∷ xs) h = rw h refl
any_suffix-append test (x ∷ skipped) t h = ground (arith, any_suffix-append test skipped t h)

-- One item passes the test, and what is left the other.
step-found {ℓ} :
    {A : Type ℓ} (here : A → Bool) (rest : List A → Bool) (t : List A)
    → step here rest t ≡ true
    → (x : A) × (xs : List A) × (t ≡ x ∷ xs) × (here x ≡ true) × (rest xs ≡ true)
unfolding step
step-found here rest [] h = absurd (cc h)
step-found here rest (x ∷ xs) h = elim (Bool-cases (here x)) [
  | inl e ↦ (x, xs, refl, e, rw e at h)
  | inr e ↦ absurd (cc (rw e at h))
]

same-ne : (a b : Bytes) → a ≢ b → same a b ≡ false
same-ne a b n = elim (Bool-cases (same a b)) [ inl e ↦ absurd (n ((same_iff a b).0 e)) | inr e ↦ e ]

ne-same : (a b : Bytes) → same a b ≡ false → a ≢ b
ne-same a b h e = cc (h, e, same_refl b)

glob_rec-Glob : (p t : List Bytes) → glob_rec p t ≡ true → Glob p t
unfolding glob_rec
glob_rec-Glob [] [] h = glob_end
glob_rec-Glob [] (x ∷ t) h = cc
glob_rec-Glob (c ∷ p) t h = elim (Bool-cases (same c star)) [
  | inl e ↦
      let (skipped, rest, q, g) = any_suffix-found (glob_rec p) t (rw e at h) in
      subst₂ Glob (ap (λ x. x ∷ p) (sym ((same_iff c star).0 e))) q
        (glob_star skipped (glob_rec-Glob p rest g))
  | inr e ↦ elim (Bool-cases (same c question)) [
    | inl k ↦
        let (x, xs, q, here, g) = step-found (λ x. true) (glob_rec p) t (rw (e, k) at h) in
        subst₂ Glob (ap (λ x. x ∷ p) (sym ((same_iff c question).0 k))) (sym q)
          (glob_any x (glob_rec-Glob p xs g))
    | inr k ↦
        let (x, xs, q, here, g) = step-found (λ x. same x c) (glob_rec p) t (rw (e, k) at h) in
        subst (Glob (c ∷ p)) (sym (q ∙ ap (λ y. y ∷ xs) ((same_iff x c).0 here)))
          (glob_char c (ne-same c star e) (ne-same c question k) (glob_rec-Glob p xs g))
  ]
]

question_plain : same question star ≡ false
unfolding same
question_plain = refl

Glob-glob_rec : {p t : List Bytes} → Glob p t → glob_rec p t ≡ true
unfolding glob_rec step
Glob-glob_rec glob_end = refl
Glob-glob_rec (glob_star {p} {t} skipped g) =
    rw (same_refl star) (any_suffix-append (glob_rec p) skipped t (Glob-glob_rec g))
Glob-glob_rec (glob_any x g) = rw (question_plain, same_refl question) (Glob-glob_rec g)
Glob-glob_rec (glob_char c n m g) =
    rw (same-ne c star n, same-ne c question m, same_refl c) (Glob-glob_rec g)

-- The glob loop holds of the characters that the glob matches, and of no others.
pub glob_rec_iff : (p t : List Bytes) → (glob_rec p t ≡ true) ↔ Glob p t
glob_rec_iff p t = (glob_rec-Glob p t, Glob-glob_rec)

match_segments-Segments : (p t : List Bytes) → match_segments p t ≡ true → Segments p t
unfolding match_segments
match_segments-Segments [] [] h = path_end
match_segments-Segments [] (x ∷ t) h = cc
match_segments-Segments (g ∷ p) t h = elim (Bool-cases (same g double_star)) [
  | inl e ↦
      let (skipped, rest, q, m) = deep p t (rw e at h) in
      subst₂ Segments (ap (λ x. x ∷ p) (sym ((same_iff g double_star).0 e))) q
        (path_deep skipped (match_segments-Segments p rest m))
  | inr e ↦
      let (x, xs, q, here, m) = step-found (glob_match g) (match_segments p) t (rw e at h) in
      subst (Segments (g ∷ p)) (sym q)
        (path_step g x (ne-same g double_star e) here (match_segments-Segments p xs m))
]
  where
    deep :
        (p t : List Bytes)
        → is_nil p || any_suffix (match_segments p) t ≡ true
        → (skipped : List Bytes) × (rest : List Bytes) × (skipped ++ rest ≡ t)
          × (match_segments p rest ≡ true)
    deep [] t h = (t, [], append-nil t, refl)
    deep (x ∷ p) t h = any_suffix-found (match_segments (x ∷ p)) t h

or-true : (b : Bool) → b || true ≡ true
or-true true = refl
or-true false = refl

Segments-match_segments : {p t : List Bytes} → Segments p t → match_segments p t ≡ true
unfolding match_segments step
Segments-match_segments path_end = refl
Segments-match_segments (path_deep {p} {t} skipped m) =
    rw
      (
        same_refl double_star,
        any_suffix-append (match_segments p) skipped t (Segments-match_segments m),
      )
      (or-true (is_nil p))
Segments-match_segments (path_step g s n h m) =
    rw (same-ne g double_star n, h) (Segments-match_segments m)

-- A pattern's segments hold of the paths that they match, and of no others.
pub match_segments_iff : (p t : List Bytes) → (match_segments p t ≡ true) ↔ Segments p t
match_segments_iff p t = (match_segments-Segments p t, Segments-match_segments)
