-- ===== src/Base/Rows.antt =====
-- A table as the list of its rows in rowid order, and the SQL that the journals use: SELECT of the
-- first match, SUM, UPDATE … WHERE and the number of rows changed.
use Prim.Native.Nat.{ℕ, ◌+◌, ◌≤◌}
use mathlib.Core.Path.{◌≡◌, refl, subst}
use mathlib.Core.Bool.{Bool, true, false, ◌||◌, ◌&&◌}
use mathlib.Core.Option.{Option, none, some}
use mathlib.Core.List.{List, [], ◌∷◌, ◌++◌}
use native.Mathlib.Omega.{arith}
use grainlify_bounty_agent.Base.Tests.{if◌then◌else◌, Bool-cases}
use mathlib.Core.Logic.{inl, inr}

module _ {ℓ} {A : Type ℓ} where
  abbrev pub any : (A → Bool) → List A → Bool
  any p [] = false
  any p (x ∷ xs) = p x || any p xs

  abbrev pub every : (A → Bool) → List A → Bool
  every p [] = true
  every p (x ∷ xs) = p x && every p xs

  -- SELECT … WHERE p, with `.get()`
  abbrev pub first : (A → Bool) → List A → Option A
  first p [] = none
  first p (x ∷ xs) = if p x then some x else first p xs

  -- COALESCE(SUM(w), 0)
  abbrev pub sum_by : (A → ℕ) → List A → ℕ
  sum_by w [] = 0
  sum_by w (x ∷ xs) = w x + sum_by w xs

  abbrev pub count_by : (A → Bool) → List A → ℕ
  count_by p [] = 0
  count_by p (x ∷ xs) = (if p x then 1 else 0) + count_by p xs

  abbrev pub update_if : (A → Bool) → (A → A) → A → A
  update_if p f x = if p x then f x else x

  -- UPDATE … SET f WHERE p
  abbrev pub update_where : (A → Bool) → (A → A) → List A → List A
  update_where p f [] = []
  update_where p f (x ∷ xs) = update_if p f x ∷ update_where p f xs

module _ {ℓ} {A : Type ℓ} where
  pub any-concat : (p : A → Bool) (xs : List A) (y : A) → any p (xs ++ y ∷ []) ≡ (any p xs || p y)
  any-concat p [] y = ground arith
  any-concat p (x ∷ xs) y = ground (arith, any-concat p xs y)

  pub first-none : (p : A → Bool) (xs : List A) → any p xs ≡ false → first p xs ≡ none
  first-none p [] h = refl
  first-none p (x ∷ xs) h = ground (arith, first-none p xs)

  pub any-first-none : (p : A → Bool) (xs : List A) → first p xs ≡ none → any p xs ≡ false
  any-first-none p [] h = refl
  any-first-none p (x ∷ xs) h = ground (arith, any-first-none p xs)

  pub first-holds : (p : A → Bool) (xs : List A) (r : A) → first p xs ≡ some r → p r ≡ true
  first-holds p [] r h = cc
  first-holds p (x ∷ xs) r h = ground (arith, first-holds p xs r)

  pub first-concat :
      (p : A → Bool) (xs : List A) (y r : A) → first p xs ≡ some r → first p (xs ++ y ∷ []) ≡ some r
  first-concat p [] y r h = cc
  first-concat p (x ∷ xs) y r h = ground (arith, first-concat p xs y r)

  pub first-concat_none :
      (p : A → Bool) (xs : List A) (y : A)
      → first p xs ≡ none
      → p y ≡ true
      → first p (xs ++ y ∷ []) ≡ some y
  first-concat_none p [] y h k = ground arith
  first-concat_none p (x ∷ xs) y h k = ground (arith, first-concat_none p xs y)

  pub sum_by-concat :
      (w : A → ℕ) (xs : List A) (y : A) → sum_by w (xs ++ y ∷ []) ≡ sum_by w xs + w y
  sum_by-concat w [] y = omega arith
  sum_by-concat w (x ∷ xs) y = omega (arith, sum_by-concat w xs y)

  pub sum_by-update_where-eq :
      (w : A → ℕ) (p : A → Bool) (f : A → A) (xs : List A)
      → ((x : A) → p x ≡ true → w (f x) ≡ w x)
      → sum_by w (update_where p f xs) ≡ sum_by w xs
  sum_by-update_where-eq w p f [] h = refl
  sum_by-update_where-eq w p f (x ∷ xs) h = ground (arith, h x, sum_by-update_where-eq w p f xs h)

  -- A test that the update cannot change has the same answer afterwards.
  pub any-update_where :
      (q p : A → Bool) (f : A → A) (xs : List A)
      → ((x : A) → q (f x) ≡ q x)
      → any q (update_where p f xs) ≡ any q xs
  any-update_where q p f [] h = refl
  any-update_where q p f (x ∷ xs) h = ground (arith, h x, any-update_where q p f xs h)

  -- A test that the update makes no row pass passes nowhere new.
  pub any-update_where-false :
      (q p : A → Bool) (f : A → A) (xs : List A)
      → ((x : A) → q (f x) ≡ true → q x ≡ true)
      → any q xs ≡ false
      → any q (update_where p f xs) ≡ false
  any-update_where-false q p f [] h e = refl
  any-update_where-false q p f (x ∷ xs) h e = ground (arith, h x, any-update_where-false q p f xs h)

  -- An update after which its own test fails leaves no row that passes.
  pub any-update_where_self :
      (q : A → Bool) (f : A → A) (xs : List A)
      → ((x : A) → q (f x) ≡ false)
      → any q (update_where q f xs) ≡ false
  any-update_where_self q f [] h = refl
  any-update_where_self q f (x ∷ xs) h = ground (arith, h x, any-update_where_self q f xs h)

  pub count_by-none : (p : A → Bool) (xs : List A) → any p xs ≡ false → count_by p xs ≡ 0
  count_by-none p [] h = refl
  count_by-none p (x ∷ xs) h = ground (arith, count_by-none p xs)

  pub first-update_where :
      (q p : A → Bool) (f : A → A) (xs : List A) (r : A)
      → ((x : A) → q (f x) ≡ q x)
      → first q xs ≡ some r
      → first q (update_where p f xs) ≡ some (update_if p f r)
  first-update_where q p f [] r h e = cc
  first-update_where q p f (x ∷ xs) r h e = ground (arith, h x, first-update_where q p f xs r h)

module _ {ℓ κ} {A : Type ℓ} (P : A → Type κ) where
  abbrev pub All : List A → Type κ
  All [] = Unit
  All (x ∷ xs) = P x × All xs

  pub All-concat : (xs : List A) (y : A) → All xs → P y → All (xs ++ y ∷ [])
  All-concat [] y h k = (k, tt)
  All-concat (x ∷ xs) y h k = (h.0, All-concat xs y h.1 k)

  pub All-update_where :
      (p : A → Bool) (f : A → A) (xs : List A)
      → ((x : A) → p x ≡ true → P x → P (f x))
      → All xs
      → All (update_where p f xs)
  All-update_where p f [] k h = tt
  All-update_where p f (x ∷ xs) k h = (
    elim (Bool-cases (p x)) [ inl hit ↦ rw hit (k x hit h.0) | inr miss ↦ rw miss h.0 ],
    All-update_where p f xs k h.1,
  )

  pub All-first : (p : A → Bool) (xs : List A) (r : A) → All xs → first p xs ≡ some r → P r
  All-first p [] r h e = absurd (cc)
  All-first p (x ∷ xs) r h e = elim (Bool-cases (p x)) [
    | inl hit ↦ subst P (ground arith) h.0
    | inr miss ↦ All-first p xs r h.1 (ground arith)
  ]

  -- An update that makes no row heavier makes no sum larger.
  pub sum_by-update_where-le :
      (w : A → ℕ) (p : A → Bool) (f : A → A) (xs : List A)
      → ((x : A) → p x ≡ true → P x → w (f x) ≤ w x)
      → All xs
      → sum_by w (update_where p f xs) ≤ sum_by w xs
  sum_by-update_where-le w p f [] k h = omega arith
  sum_by-update_where-le w p f (x ∷ xs) k h = elim (Bool-cases (p x)) [
    | inl hit ↦ rw hit (omega (arith, k x hit h.0, sum_by-update_where-le w p f xs k h.1))
    | inr miss ↦ rw miss (omega (arith, sum_by-update_where-le w p f xs k h.1))
  ]

module _ {ℓ} {A : Type ℓ} (p : A → Bool) where
  pub every-All : (xs : List A) → every p xs ≡ true → All (λ x. p x ≡ true) xs
  every-All [] h = tt
  every-All (x ∷ xs) h = (ground arith, every-All xs (ground arith))

  pub All-every : (xs : List A) → All (λ x. p x ≡ true) xs → every p xs ≡ true
  All-every [] h = refl
  All-every (x ∷ xs) (h, hs) = rw h (All-every xs hs)

pub All-mono {ℓ κ} :
    {A : Type ℓ} (P Q : A → Type κ) (xs : List A) → ((x : A) → P x → Q x) → All P xs → All Q xs
All-mono P Q [] f h = tt
All-mono P Q (x ∷ xs) f h = (f x h.0, All-mono P Q xs f h.1)
