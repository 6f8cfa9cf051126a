-- ===== src/Query/Glob.antt =====
-- Globs over names and paths (crates/alefs-query/src/eval.rs). A `char` is the list of its bytes.
pub mod Matches
use alefsdb.Prelude.{ℕ, ◌∷◌, Bool, true, false, not, ◌&&◌, ◌||◌, List, [], leb, ltb, if◌then◌else◌}
use alefsdb.Bytes.{Bytes, text, same}
use alefsdb.Types.DbPath.Split.{split}

-- A byte that goes on with a character.
abbrev pub continues : Bytes → Bool
continues [] = false
continues (b ∷ bs) = leb 128 b && ltb b 192

abbrev prepend : ℕ → List Bytes → List Bytes
prepend b [] = (b ∷ []) ∷ []
prepend b (c ∷ cs) = (b ∷ c) ∷ cs

-- `str::chars`
unfoldable pub chars : Bytes → List Bytes
chars [] = []
chars (b ∷ bs) = let rest = chars bs in if continues bs then prepend b rest else (b ∷ []) ∷ rest

abbrev pub star : Bytes
star = b'*' ∷ []

abbrev pub question : Bytes
question = b'?' ∷ []

abbrev pub double_star : Bytes
double_star = b'*' ∷ b'*' ∷ []

abbrev pub is_nil {ℓ} : {A : Type ℓ} → List A → Bool
is_nil [] = true
is_nil (x ∷ xs) = false

-- The loop over `0..=t.len()`, with the test on what is left from each place on.
unfoldable pub any_suffix {ℓ} : {A : Type ℓ} → (List A → Bool) → List A → Bool
any_suffix test [] = test []
any_suffix test (x ∷ xs) = test (x ∷ xs) || any_suffix test xs

-- The test of one character, and of the rest behind it.
unfoldable pub step {ℓ} : {A : Type ℓ} → (A → Bool) → (List A → Bool) → List A → Bool
step here rest [] = false
step here rest (x ∷ xs) = here x && rest xs

unfoldable pub glob_rec : List Bytes → List Bytes → Bool
glob_rec [] t = is_nil t
glob_rec (c ∷ p) t =
    if same c star
    then any_suffix (glob_rec p) t
    else if same c question
    then step (λ x. true) (glob_rec p) t
    else step (λ x. same x c) (glob_rec p) t

unfoldable pub glob_match : Bytes → Bytes → Bool
glob_match pattern name = glob_rec (chars pattern) (chars name)

unfoldable pub match_segments : List Bytes → List Bytes → Bool
match_segments [] path = is_nil path
match_segments (g ∷ pat) path =
    if same g double_star
    then is_nil pat || any_suffix (match_segments pat) path
    else step (glob_match g) (match_segments pat) path

-- `filter(|s| !s.is_empty())`
unfoldable pub filled : List Bytes → List Bytes
filled [] = []
filled (s ∷ ss) = let rest = filled ss in if is_nil s then rest else s ∷ rest

unfoldable pub path_glob_match : Bytes → Bytes → Bool
path_glob_match pattern path =
    if same pattern (text "/**") || same pattern (text "**")
    then true
    else match_segments (filled (split b'/' pattern)) (filled (split b'/' path))
