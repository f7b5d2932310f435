-- ===== src/Base/Unique.antt =====
-- UNIQUE constraints: no two rows of a table clash.
use mathlib.Core.Path.{◌≡◌, refl}
use mathlib.Core.Bool.{Bool, true, false}
use mathlib.Core.List.{List, [], ◌∷◌, ◌++◌}
use native.Mathlib.Omega.{arith}
use grainlify_bounty_agent.Base.Rows.{any, update_if, update_where, any-concat}

module _ {ℓ} {A : Type ℓ} where
  -- No row clashes with a later one.
  abbrev pub IsApart : (A → A → Bool) → List A → Type 0
  IsApart c [] = Unit
  IsApart c (x ∷ xs) = (any (c x) xs ≡ false) × IsApart c xs

module _ {ℓ} {A : Type ℓ} (c : A → A → Bool) where
  pub IsApart-concat :
      (xs : List A) (y : A) → any (λ x. c x y) xs ≡ false → IsApart c xs → IsApart c (xs ++ y ∷ [])
  IsApart-concat [] y h v = (refl, tt)
  IsApart-concat (x ∷ xs) y h v =
      (ground (arith, any-concat (c x) xs y, v.0), IsApart-concat xs y (ground arith) v.1)

  module _ (p : A → Bool) (f : A → A) (keeps : (x y : A) → c (f x) y ≡ c x y)
      (keeps' : (x y : A) → c x (f y) ≡ c x y) where
    any-update_if :
        (x : A) (xs : List A) → any (c (update_if p f x)) (update_where p f xs) ≡ any (c x) xs
    any-update_if x [] = refl
    any-update_if x (y ∷ ys) =
        ground (arith, keeps x y, keeps x (f y), keeps' x y, any-update_if x ys)

    -- An update that leaves the constrained columns alone keeps the constraint.
    pub IsApart-update_where : (xs : List A) → IsApart c xs → IsApart c (update_where p f xs)
    IsApart-update_where [] v = tt
    IsApart-update_where (x ∷ xs) v = (rw (any-update_if x xs) v.0, IsApart-update_where xs v.1)

  module _ (p : A → Bool) (f : A → A)
      (frees : (x y : A) → c (update_if p f x) (update_if p f y) ≡ true → c x y ≡ true) where
    any-update_frees :
        (x : A) (xs : List A)
        → any (c x) xs ≡ false
        → any (c (update_if p f x)) (update_where p f xs) ≡ false
    any-update_frees x [] h = refl
    any-update_frees x (y ∷ ys) h = ground (arith, frees x y, any-update_frees x ys)

    -- An update that makes no two rows clash keeps the constraint.
    pub IsApart-update_frees : (xs : List A) → IsApart c xs → IsApart c (update_where p f xs)
    IsApart-update_frees [] v = tt
    IsApart-update_frees (x ∷ xs) v = (any-update_frees x xs v.0, IsApart-update_frees xs v.1)
