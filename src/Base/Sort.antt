-- ===== src/Base/Sort.antt =====
-- `sort` of a list by a Boolean order: insertion from the back, which keeps the order of equals.
use exa_postgres_interface.Base.Tests.{if◌then◌else◌, Bool-cases}
use mathlib.Core.Bool.{Bool, true, false}
use mathlib.Core.List.{List, [], ◌∷◌}
use mathlib.Core.Logic.{inl, inr}
use mathlib.Core.Path.{◌≡◌}

module _ {ℓ} {A : Type ℓ} (le : A → A → Bool) where
  unfoldable pub insert_sorted : A → List A → List A
  insert_sorted x [] = x ∷ []
  insert_sorted x (y ∷ ys) =
      let rest = insert_sorted x ys in if le x y then x ∷ y ∷ ys else y ∷ rest

  unfoldable pub sort : List A → List A
  unfolding insert_sorted
  sort [] = []
  sort (x ∷ xs) = insert_sorted x (sort xs)

  -- Each element is at most the next one, from `x` on.
  abbrev pub Chain : A → List A → Type 0
  Chain x [] = Unit {0}
  Chain x (y ∷ ys) = (le x y ≡ true) × Chain y ys

  abbrev pub IsSorted : List A → Type 0
  IsSorted [] = Unit {0}
  IsSorted (x ∷ xs) = Chain x xs

  module _ (total : (x y : A) → le x y ≡ false → le y x ≡ true) where
    insert_sorted-Chain :
        (x y : A) (ys : List A) → le y x ≡ true → Chain y ys → Chain y (insert_sorted x ys)
    unfolding insert_sorted
    insert_sorted-Chain x y [] h c = (h, tt)
    insert_sorted-Chain x y (z ∷ ys) h (yz, c) = elim (Bool-cases (le x z)) [
      | inl small ↦ rw (small, insert_sorted) (h, (small, c))
      | inr large ↦ rw (large, insert_sorted) (yz, insert_sorted-Chain x z ys (total x z large) c)
    ]

    insert_sorted-IsSorted : (x : A) (ys : List A) → IsSorted ys → IsSorted (insert_sorted x ys)
    unfolding insert_sorted
    insert_sorted-IsSorted x [] h = tt
    insert_sorted-IsSorted x (y ∷ ys) h = elim (Bool-cases (le x y)) [
      | inl small ↦ rw (small, insert_sorted) (small, h)
      | inr large ↦ rw (large, insert_sorted) (insert_sorted-Chain x y ys (total x y large) h)
    ]

    pub sort-IsSorted : (xs : List A) → IsSorted (sort xs)
    unfolding sort
    sort-IsSorted [] = tt
    sort-IsSorted (x ∷ xs) = insert_sorted-IsSorted x (sort xs) (sort-IsSorted xs)
