-- ===== src/Prelude/Results.antt =====
-- Rust's `Result<A, E>`, with the bind that `?` stands for.
use mathlib.Core.Path.{◌≡◌, refl}
use mathlib.Core.Option.{Option, none, some}

pub data Result {ℓ κ} (E : Type ℓ) (A : Type κ) : Type (ℓ ⊔ κ) where
  err : E → Result E A
  ok : A → Result E A

module _ {ℓ κ} {E : Type ℓ} {A : Type κ} where
  infixl 5 ◌>>=◌
  -- `?`, with the rest of the body.
  abbrev pub ◌>>=◌ {κ'} : {B : Type κ'} (r : Result E A) (rest : A → Result E B) → Result E B
  err why >>= rest = err why
  ok a >>= rest = rest a

  -- `?` on a result that is not used further.
  infixl 5 ◌>>◌
  abbrev pub ◌>>◌ {κ'} : {B : Type κ'} (r : Result E A) (rest : Result E B) → Result E B
  err why >> rest = err why
  ok a >> rest = rest

  -- `o.ok_or_else(|| e)`
  abbrev pub ok_or : E → Option A → Result E A
  ok_or e none = err e
  ok_or e (some a) = ok a

  -- Inversion of a successful bind.
  pub >>=-eq-ok {κ'} :
      {B : Type κ'} (r : Result E A) (rest : A → Result E B) {b : B}
      → (r >>= rest) ≡ ok b
      → (a : A) × (r ≡ ok a) × (rest a ≡ ok b)
  >>=-eq-ok (err why) rest h = cc
  >>=-eq-ok (ok a) rest h = (a, refl, h)

pub ok-injective {ℓ κ} :
    {E : Type ℓ} {A : Type κ} (a b : A) → ◌≡◌ {A = Result E A} (ok a) (ok b) → a ≡ b
ok-injective a b h = cc

-- `r.map_err(f)`
abbrev pub map_err {ℓ ℓ' κ} :
    {E : Type ℓ} {F : Type ℓ'} {A : Type κ} → (E → F) → Result E A → Result F A
map_err f (ok a) = ok a
map_err f (err e) = err (f e)
