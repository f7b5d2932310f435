-- ===== src/Base/Ids.antt =====
-- AUTOINCREMENT primary keys: distinct, and never above the last one given out.
use Prim.Native.Nat.{ℕ, suc, ◌+◌, ◌≤◌, ◌<◌}
use mathlib.Core.Path.{◌≡◌, refl, ap, ◌∙◌}
use mathlib.Core.Bool.{Bool, true, false}
use mathlib.Core.Option.{some}
use mathlib.Core.List.{List, [], ◌∷◌, ◌++◌}
use native.Mathlib.Omega.{arith}
use grainlify_bounty_agent.Base.Tests.{◌==◌, if◌then◌else◌}
use grainlify_bounty_agent.Base.Rows.{any, first, sum_by, count_by, update_where}
use grainlify_bounty_agent.Base.Unique.{IsApart, IsApart-concat, IsApart-update_where}

module _ {ℓ} {A : Type ℓ} where
  pub update_where-none :
      (p : A → Bool) (f : A → A) (xs : List A) → any p xs ≡ false → update_where p f xs ≡ xs
  update_where-none p f [] h = refl
  update_where-none p f (x ∷ xs) h = ground (arith, update_where-none p f xs)

module _ {ℓ} {A : Type ℓ} (id : A → ℕ) where
  abbrev pub with_id : ℕ → A → Bool
  with_id k x = id x == k

  abbrev pub same_id : A → A → Bool
  same_id x y = id x == id y

  abbrev pub IsBelow : ℕ → List A → Type 0
  IsBelow n [] = Unit
  IsBelow n (x ∷ xs) = (id x ≤ n) × IsBelow n xs

  -- The ids of a table whose last id is `n`.
  pub record IsKeyed (n : ℕ) (xs : List A) : Type ℓ where
    pub below : IsBelow n xs
    pub apart : IsApart same_id xs

  IsBelow-absent : (n k : ℕ) (xs : List A) → IsBelow n xs → n < k → any (with_id k) xs ≡ false
  IsBelow-absent n k [] b h = refl
  IsBelow-absent n k (x ∷ xs) b h = ground (arith, IsBelow-absent n k xs b.1 h)

  IsBelow-concat :
      (n : ℕ) (xs : List A) (y : A) → IsBelow n xs → id y ≡ suc n → IsBelow (suc n) (xs ++ y ∷ [])
  IsBelow-concat n [] y b e = (omega arith, tt)
  IsBelow-concat n (x ∷ xs) y b e = (omega arith, IsBelow-concat n xs y b.1 e)

  IsBelow-update_where :
      (n : ℕ) (p : A → Bool) (f : A → A) (xs : List A)
      → ((x : A) → id (f x) ≡ id x)
      → IsBelow n xs
      → IsBelow n (update_where p f xs)
  IsBelow-update_where n p f [] k b = tt
  IsBelow-update_where n p f (x ∷ xs) k b =
      (ground (arith, k x, b.0), IsBelow-update_where n p f xs k b.1)

  swap_ids :
      (k : ℕ) (xs : List A) (y : A) → id y ≡ k → any (λ x. same_id x y) xs ≡ any (with_id k) xs
  swap_ids k [] y e = refl
  swap_ids k (x ∷ xs) y e = ground (arith, swap_ids k xs y e)

  -- An inserted row takes the next id.
  pub IsKeyed-concat :
      (n : ℕ) (xs : List A) (y : A) → id y ≡ suc n → IsKeyed n xs → IsKeyed (suc n) (xs ++ y ∷ [])
  IsKeyed-concat n xs y e v = record {
    below = IsBelow-concat n xs y v.below e;
    apart =
        IsApart-concat same_id xs y
          (swap_ids (suc n) xs y e ∙ IsBelow-absent n (suc n) xs v.below (omega arith)) v.apart;
  }

  pub IsKeyed-update_where :
      (n : ℕ) (p : A → Bool) (f : A → A) (xs : List A)
      → ((x : A) → id (f x) ≡ id x)
      → IsKeyed n xs
      → IsKeyed n (update_where p f xs)
  IsKeyed-update_where n p f xs k v = record {
    below = IsBelow-update_where n p f xs k v.below;
    apart =
        IsApart-update_where same_id p f (λ x y. ap (λ (t : ℕ). t == id y) (k x))
          (λ x y. ap (λ (t : ℕ). id x == t) (k y)) xs v.apart;
  }

  -- A new id is found nowhere else.
  pub IsKeyed-absent : (n : ℕ) (xs : List A) → IsKeyed n xs → any (with_id (suc n)) xs ≡ false
  IsKeyed-absent n xs v = IsBelow-absent n (suc n) xs v.below (omega arith)

  same-with :
      (k : ℕ) (x : A) (xs : List A)
      → id x ≡ k
      → any (same_id x) xs ≡ false
      → any (with_id k) xs ≡ false
  same-with k x [] e h = refl
  same-with k x (y ∷ ys) e h = ground (arith, same-with k x ys e)

  -- An update by id changes a sum by what it changes in the one row.
  pub sum_by-update_id :
      (w : A → ℕ) (k : ℕ) (f : A → A) (xs : List A) (r : A)
      → IsApart same_id xs
      → first (with_id k) xs ≡ some r
      → sum_by w (update_where (with_id k) f xs) + w r ≡ sum_by w xs + w (f r)
  sum_by-update_id w k f [] r v e = cc
  sum_by-update_id w k f (x ∷ xs) r v e = ground (
    arith,
    same-with k x xs,
    update_where-none (with_id k) f xs,
    sum_by-update_id w k f xs r v.1,
    v.0,
  )

  any-first :
      (p q : A → Bool) (xs : List A) (r : A) → first q xs ≡ some r → p r ≡ true → any p xs ≡ true
  any-first p q [] r e h = cc
  any-first p q (x ∷ xs) r e h = ground (arith, any-first p q xs r)

  -- A row that some search finds is the one that its id finds.
  pub first-with_id :
      (q : A → Bool) (xs : List A) (r : A)
      → IsApart same_id xs
      → first q xs ≡ some r
      → first (with_id (id r)) xs ≡ some r
  first-with_id q [] r v e = cc
  first-with_id q (x ∷ xs) r v e =
      ground (arith, any-first (same_id x) q xs r, first-with_id q xs r v.1, v.0)

  count_by-eq-sum_by :
      (p : A → Bool) (xs : List A) → count_by p xs ≡ sum_by (λ x. if p x then 1 else 0) xs
  count_by-eq-sum_by p [] = refl
  count_by-eq-sum_by p (x ∷ xs) = omega (arith, count_by-eq-sum_by p xs)

  -- An update of one row, found by some search, that keeps a test keeps the count of it.
  pub count_by-update_id :
      (c q : A → Bool) (f : A → A) (xs : List A) (r : A)
      → IsApart same_id xs
      → first q xs ≡ some r
      → c (f r) ≡ c r
      → count_by c (update_where (with_id (id r)) f xs) ≡ count_by c xs
  count_by-update_id c q f xs r v e k =
      let moved =
        sum_by-update_id (λ x. if c x then 1 else 0) (id r) f xs r v (first-with_id q xs r v e) in
      omega (
        arith,
        moved,
        ap {B = ℕ} (λ (b : Bool). if b then 1 else 0) k,
        count_by-eq-sum_by c xs,
        count_by-eq-sum_by c (update_where (with_id (id r)) f xs),
      )
