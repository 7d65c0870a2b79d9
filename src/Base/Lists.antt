-- ===== src/Base/Lists.antt =====
-- Lists measured and indexed by native numbers, under the library's names.
use Prim.Native.Nat.{ℕ, zero, suc, ◌+◌, ◌-◌, ◌≤◌, min}
use mathlib.Core.Path.{◌≡◌, refl, ap, sym, ◌∙◌}
use mathlib.Core.List.{List, [], ◌∷◌, ◌++◌, reverse, reverse-cons}
use mathlib.Core.Option.{Option, none, some}
use mathlib.Core.Bool.{Bool, false, ◌||◌}
use native.Mathlib.Omega.{arith}

module _ {ℓ} {A : Type ℓ} where
  abbrev pub length : List A → ℕ
  length [] = 0
  length (x ∷ xs) = suc (length xs)

  abbrev pub get_elem? : List A → ℕ → Option A
  get_elem? [] i = none
  get_elem? (x ∷ xs) zero = some x
  get_elem? (x ∷ xs) (suc i) = get_elem? xs i

  abbrev pub take : ℕ → List A → List A
  take zero xs = []
  take (suc n) [] = []
  take (suc n) (x ∷ xs) = x ∷ take n xs

  abbrev pub drop : ℕ → List A → List A
  drop zero xs = xs
  drop (suc n) [] = []
  drop (suc n) (x ∷ xs) = drop n xs

  abbrev pub any : (A → Bool) → List A → Bool
  any p [] = false
  any p (x ∷ xs) = p x || any p xs

  abbrev pub head? : List A → Option A
  head? [] = none
  head? (x ∷ xs) = some x

  pub length-append : (xs ys : List A) → length (xs ++ ys) ≡ length xs + length ys
  length-append [] ys = omega arith
  length-append (x ∷ xs) ys = omega (arith, length-append xs ys)

module _ {ℓ κ} {A : Type ℓ} (P : A → Type κ) where
  abbrev pub All : List A → Type κ
  All [] = Unit
  All (x ∷ xs) = P x × All xs

  pub All-append : (xs ys : List A) → All xs → All ys → All (xs ++ ys)
  All-append [] ys _ hy = hy
  All-append (x ∷ xs) ys (px, hx) hy = (px, All-append xs ys hx hy)

  pub All-reverse : (xs : List A) → All xs → All (reverse xs)
  All-reverse [] _ = tt
  All-reverse (x ∷ xs) (px, hx) =
      rw (reverse-cons x xs) (All-append (reverse xs) (x ∷ []) (All-reverse xs hx) (px, tt))

pub All-mono {ℓ κ κ'} :
    {A : Type ℓ} {P : A → Type κ} {Q : A → Type κ'}
    → ((x : A) → P x → Q x)
    → (xs : List A) → All P xs
    → All Q xs
All-mono f [] _ = tt
All-mono f (x ∷ xs) (px, hx) = (f x px, All-mono f xs hx)

module _ {ℓ} {A : Type ℓ} where
  pub take-append-drop : (n : ℕ) (xs : List A) → take n xs ++ drop n xs ≡ xs
  take-append-drop zero xs = refl
  take-append-drop (suc n) [] = refl
  take-append-drop (suc n) (x ∷ xs) = rw (take-append-drop n xs)

  pub length-take : (n : ℕ) (xs : List A) → length (take n xs) ≡ min n (length xs)
  length-take zero xs = omega arith
  length-take (suc n) [] = omega arith
  length-take (suc n) (x ∷ xs) = omega (arith, length-take n xs)

  pub length-drop : (n : ℕ) (xs : List A) → length (drop n xs) ≡ length xs - n
  length-drop zero xs = omega arith
  length-drop (suc n) [] = omega arith
  length-drop (suc n) (x ∷ xs) = omega (arith, length-drop n xs)

  pub length-reverse : (xs : List A) → length (reverse xs) ≡ length xs
  length-reverse [] = refl
  length-reverse (x ∷ xs) =
      omega (
        arith,
        ap length (reverse-cons x xs),
        length-append (reverse xs) (x ∷ []),
        length-reverse xs,
      )

  pub drop_of_length-le : (n : ℕ) (xs : List A) → length xs ≤ n → drop n xs ≡ []
  drop_of_length-le zero [] h = refl
  drop_of_length-le zero (x ∷ xs) h = absurd (omega arith)
  drop_of_length-le (suc n) [] h = refl
  drop_of_length-le (suc n) (x ∷ xs) h = drop_of_length-le n xs (omega arith)

  pub take-nil : (n : ℕ) → ◌≡◌ {A = List A} (take n []) []
  take-nil zero = refl
  take-nil (suc n) = refl

  pub take_of_length-le : (k : ℕ) (ys : List A) → length ys ≤ k → take k ys ≡ ys
  take_of_length-le k [] h = take-nil k
  take_of_length-le zero (y ∷ ys) h = absurd (omega arith)
  take_of_length-le (suc k) (y ∷ ys) h = rw (take_of_length-le k ys (omega arith))

  pub drop-nil : (n : ℕ) → ◌≡◌ {A = List A} (drop n []) []
  drop-nil zero = refl
  drop-nil (suc n) = refl

  pub take-append :
      (n : ℕ) (xs ys : List A) → take n (xs ++ ys) ≡ take n xs ++ take (n - length xs) ys
  take-append zero xs ys = rw (let e : 0 - length xs ≡ 0 = omega arith in e)
  take-append (suc n) [] ys = rw (let e : suc n - 0 ≡ suc n = omega arith in e)
  take-append (suc n) (x ∷ xs) ys =
      rw (take-append n xs ys, let e : suc n - suc (length xs) ≡ n - length xs = omega arith in e)

  pub drop-append :
      (n : ℕ) (xs ys : List A) → drop n (xs ++ ys) ≡ drop n xs ++ drop (n - length xs) ys
  drop-append zero xs ys = rw (let e : 0 - length xs ≡ 0 = omega arith in e)
  drop-append (suc n) [] ys = rw (let e : suc n - 0 ≡ suc n = omega arith in e)
  drop-append (suc n) (x ∷ xs) ys =
      rw (drop-append n xs ys, let e : suc n - suc (length xs) ≡ n - length xs = omega arith in e)

  pub drop-drop : (m n : ℕ) (xs : List A) → drop m (drop n xs) ≡ drop (n + m) xs
  drop-drop m zero xs = rw (let e : zero + m ≡ m = omega arith in e)
  drop-drop m (suc n) [] = rw (drop-nil m, let e : suc n + m ≡ suc (n + m) = omega arith in e)
  drop-drop m (suc n) (x ∷ xs) =
      rw (drop-drop m n xs, let e : suc n + m ≡ suc (n + m) = omega arith in e)

  -- Two slices that meet are one slice.
  pub take-add : (m n : ℕ) (xs : List A) → take (m + n) xs ≡ take m xs ++ take n (drop m xs)
  take-add zero n xs = rw (let e : zero + n ≡ n = omega arith in e)
  take-add (suc m) n [] = rw (take-nil n, let e : suc m + n ≡ suc (m + n) = omega arith in e)
  take-add (suc m) n (x ∷ xs) =
      rw (let e : suc m + n ≡ suc (m + n) = omega arith in e) (ap (◌∷◌ x) (take-add m n xs))

  -- A cut past the end is a cut at the end.
  pub take-min : (n : ℕ) (xs : List A) → take (min n (length xs)) xs ≡ take n xs
  take-min zero xs = rw (let e : min zero (length xs) ≡ zero = omega arith in e)
  take-min (suc n) [] = rw (let e : min (suc n) zero ≡ zero = omega arith in e)
  take-min (suc n) (x ∷ xs) =
      rw (let e : min (suc n) (suc (length xs)) ≡ suc (min n (length xs)) = omega arith in e)
        (ap (◌∷◌ x) (take-min n xs))

  -- A slice with its end cut to the length.
  pub slice_clipped :
      (start end : ℕ) (xs : List A)
      → take (min end (length xs) - start) (drop start xs) ≡ take (end - start) (drop start xs)
  slice_clipped start end xs =
      ap (λ n. take n (drop start xs))
        (let e : min end (length xs) - start ≡ min (end - start) (length (drop start xs)) =
            omega (arith, length-drop start xs) in
          e)
      ∙ take-min (end - start) (drop start xs)

  pub slice_past :
      (start end : ℕ) (xs : List A)
      → min end (length xs) ≤ start
      → take (end - start) (drop start xs) ≡ []
  slice_past start end xs h =
      sym (slice_clipped start end xs)
      ∙ ap (λ n. take n (drop start xs))
          (let e : min end (length xs) - start ≡ zero = omega arith in e)
