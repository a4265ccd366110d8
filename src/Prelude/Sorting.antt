-- ===== src/Prelude/Sorting.antt =====
-- Python's stable `sorted` by an order: an element stands before the equal ones that come after it.
use mathlib.Core.Path.{◌≡◌, refl}
use mathlib.Core.Bool.{Bool, true, false}
use mathlib.Core.Logic.{inl, inr}
use mathlib.Core.List.{List, [], ◌∷◌, Perm}
use mathlib.Core.List.Perm
use native.Mathlib.Omega.{arith}
use sovereign_rag_gateway.Prelude.Tests.{if◌then◌else◌, Bool-cases}
use sovereign_rag_gateway.Prelude.Lists.{keep, All, All-map}

module _ {ℓ} {A : Type ℓ} (le : A → A → Bool) where
  unfoldable pub insert_by : A → List A → List A
  insert_by a [] = a ∷ []
  insert_by a (b ∷ ys) = let rest = insert_by a ys in if le a b then a ∷ (b ∷ ys) else b ∷ rest

  unfoldable pub sort_by : List A → List A
  unfolding insert_by
  sort_by [] = []
  sort_by (a ∷ xs) = insert_by a (sort_by xs)

  insert_by-perm : (a : A) (xs : List A) → Perm (insert_by a xs) (a ∷ xs)
  unfolding insert_by
  insert_by-perm a [] = Perm.refl _
  insert_by-perm a (b ∷ ys) = elim (Bool-cases (le a b)) [
    | inl y ↦ rw y (Perm.refl _)
    | inr n ↦ rw n (Perm.trans (Perm.cons b (insert_by-perm a ys)) (Perm.swap a b ys))
  ]

  pub sort_by-perm : (xs : List A) → Perm (sort_by xs) xs
  unfolding sort_by
  sort_by-perm [] = Perm.refl _
  sort_by-perm (a ∷ xs) = Perm.trans (insert_by-perm a (sort_by xs)) (Perm.cons a (sort_by-perm xs))

  All-insert_by : (P : A → Type 0) (a : A) (xs : List A) → P a → All P xs → All P (insert_by a xs)
  unfolding insert_by
  All-insert_by P a [] h k = (h, tt)
  All-insert_by P a (b ∷ ys) h k = elim (Bool-cases (le a b)) [
    | inl y ↦ rw y (h, k)
    | inr n ↦ rw n (k.0, All-insert_by P a ys h k.1)
  ]

  -- Elements that are equal for the order keep their places among each other.
  keep-insert_by :
      (p : A → Bool)
      → ((a b : A) → p a ≡ true → p b ≡ true → le a b ≡ true)
      → (a : A) (xs : List A) → keep p (insert_by a xs) ≡ keep p (a ∷ xs)
  unfolding insert_by
  keep-insert_by p equal a [] = refl
  keep-insert_by p equal a (b ∷ ys) = ground (arith, keep-insert_by p equal a ys, equal a b)

  pub keep-sort_by :
      (p : A → Bool)
      → ((a b : A) → p a ≡ true → p b ≡ true → le a b ≡ true)
      → (xs : List A) → keep p (sort_by xs) ≡ keep p xs
  unfolding sort_by
  keep-sort_by p equal [] = refl
  keep-sort_by p equal (a ∷ xs) =
      ground (arith, keep-insert_by p equal a (sort_by xs), keep-sort_by p equal xs)

-- Each element is related to every later one.
abbrev pub IsOrdered {ℓ} : {A : Type ℓ} → (A → A → Type 0) → List A → Type ℓ
IsOrdered R [] = Unit
IsOrdered R (a ∷ xs) = All (R a) xs × IsOrdered R xs

module _ {ℓ} {A : Type ℓ} (le : A → A → Bool) (R : A → A → Type 0)
    (yes : (a b : A) → le a b ≡ true → R a b) (no : (a b : A) → le a b ≡ false → R b a)
    (trans : (a b c : A) → R a b → R b c → R a c) where
  insert_by-IsOrdered : (a : A) (xs : List A) → IsOrdered R xs → IsOrdered R (insert_by le a xs)
  unfolding insert_by
  insert_by-IsOrdered a [] h = (tt, tt)
  insert_by-IsOrdered a (b ∷ ys) h = elim (Bool-cases (le a b)) [
    | inl y ↦ rw y ((yes a b y, All-map _ _ (λ c k. trans a b c (yes a b y) k) ys h.0), h)
    | inr n ↦ rw n (All-insert_by le (R b) a ys (no a b n) h.0, insert_by-IsOrdered a ys h.1)
  ]

  pub sort_by-IsOrdered : (xs : List A) → IsOrdered R (sort_by le xs)
  unfolding sort_by
  sort_by-IsOrdered [] = tt
  sort_by-IsOrdered (a ∷ xs) = insert_by-IsOrdered a (sort_by le xs) (sort_by-IsOrdered xs)
