-- ===== src/Types/DbPath/Split.antt =====
-- `str::split`, `join`, `trim_end_matches` and `contains` at one byte.
use alefsdb.Prelude.{
  ℕ, ◌≡◌, ◌≢◌, refl, Bool, true, false, List, [], ◌∷◌, ◌++◌, arith, ◌==◌, ==_refl, if◌then◌else◌,
  Bool-cases, inl, inr, All,
}
use alefsdb.Bytes.{Bytes}

abbrev pub slash : ℕ
slash = b'/'

unfoldable pub contains : ℕ → Bytes → Bool
contains c [] = false
contains c (b ∷ bs) = if b == c then true else contains c bs

-- One more byte in front of the first part.
abbrev extend : ℕ → List Bytes → List Bytes
extend b [] = (b ∷ []) ∷ []
extend b (s ∷ ss) = (b ∷ s) ∷ ss

unfoldable pub split : ℕ → Bytes → List Bytes
split c [] = [] ∷ []
split c (b ∷ bs) = let parts = split c bs in if b == c then [] ∷ parts else extend b parts

unfoldable pub join_with : ℕ → List Bytes → Bytes
join_with c [] = []
join_with c (s ∷ ss) = elim ss [ [] ↦ s | t ∷ ts ↦ s ++ c ∷ join_with c ss ]

-- One byte in front of the trimmed rest: it goes too where nothing is left behind it.
abbrev trim_step : ℕ → ℕ → Bytes → Bytes
trim_step c b [] = if b == c then [] else b ∷ []
trim_step c b (x ∷ r) = b ∷ x ∷ r

unfoldable pub trim_end : ℕ → Bytes → Bytes
trim_end c [] = []
trim_end c (b ∷ bs) = trim_step c b (trim_end c bs)

pub split-plain : (c : ℕ) (s : Bytes) → contains c s ≡ false → split c s ≡ s ∷ []
unfolding split contains
split-plain c [] h = refl
split-plain c (b ∷ bs) h = ground (arith, split-plain c bs)

pub split-append :
    (c : ℕ) (s r : Bytes) → contains c s ≡ false → split c (s ++ c ∷ r) ≡ s ∷ split c r
unfolding split contains
split-append c [] r h = rw (==_refl c)
split-append c (b ∷ bs) r h = ground (arith, split-append c bs r)

-- A text that ends in another byte is left as it is.
pub trim_end-append :
    (c : ℕ) (s r : Bytes) → trim_end c r ≡ r → r ≢ [] → trim_end c (s ++ r) ≡ s ++ r
unfolding trim_end
trim_end-append c [] r h n = h
trim_end-append c (b ∷ bs) r h n = rw (trim_end-append c bs r h n) (keep bs)
  where
    keep : (xs : Bytes) → trim_step c b (xs ++ r) ≡ b ∷ (xs ++ r)
    keep [] = ground arith
    keep (x ∷ xs) = refl

pub trim_end-plain : (c : ℕ) (s : Bytes) → contains c s ≡ false → trim_end c s ≡ s
unfolding trim_end contains
trim_end-plain c [] h = refl
trim_end-plain c (b ∷ bs) h = ground (arith, trim_end-plain c bs)

pub join_with-extend :
    (c b : ℕ) (ss : List Bytes) → ss ≢ [] → join_with c (extend b ss) ≡ b ∷ join_with c ss
unfolding join_with
join_with-extend c b [] n = absurd (n refl)
join_with-extend c b (s ∷ []) n = refl
join_with-extend c b (s ∷ t ∷ ts) n = refl

join_with-nil : (c : ℕ) (ss : List Bytes) → ss ≢ [] → join_with c ([] ∷ ss) ≡ c ∷ join_with c ss
unfolding join_with
join_with-nil c [] n = absurd (n refl)
join_with-nil c (s ∷ ss) n = refl

pub split-ne-nil : (c : ℕ) (bs : Bytes) → split c bs ≢ []
unfolding split
split-ne-nil c [] = cc
split-ne-nil c (b ∷ bs) = ground (arith, split-ne-nil c bs)

-- The parts between the separators, joined by it, are the text.
pub join_with-split : (c : ℕ) (bs : Bytes) → join_with c (split c bs) ≡ bs
unfolding split
join_with-split c [] = unfold join_with in refl
join_with-split c (b ∷ bs) =
    let n = split-ne-nil c bs in
    ground (
      arith,
      join_with-split c bs,
      join_with-nil c (split c bs) n,
      join_with-extend c b (split c bs) n,
    )

extend-All :
    (c b : ℕ) (ss : List Bytes)
    → (b == c) ≡ false
    → All (λ s. contains c s ≡ false) ss
    → All (λ s. contains c s ≡ false) (extend b ss)
unfolding contains
extend-All c b [] h a = (rw h, tt)
extend-All c b (s ∷ ss) h a = (rw h a.0, a.1)

-- No part has the separator.
pub contains-split : (c : ℕ) (bs : Bytes) → All (λ s. contains c s ≡ false) (split c bs)
unfolding split
contains-split c [] = (unfold contains in refl, tt)
contains-split c (b ∷ bs) = elim (Bool-cases (b == c)) [
  | inl p ↦ rw p (unfold contains in refl, contains-split c bs)
  | inr p ↦ rw p (extend-All c b (split c bs) p (contains-split c bs))
]
