-- ===== src/Cursor/View.antt =====
-- The rows that a cursor holds and a step hands out, whichever transport brought them.
use exa_postgres_interface.Base.{
  ℕ, zero, suc, ◌-◌, min, List, [], ◌∷◌, ◌++◌, reverse, map, leb, ◌||◌, if◌then◌else◌, ◌⊎◌, inl,
  inr, ◌≡◌, refl, sym, ap, ◌∙◌, arith, All, length, take, drop, Bool-cases, slice_clipped,
  slice_past,
}
use mathlib.Core.List.{map-append, reverse-cons}
use exa_postgres_interface.Crates.{Crates, CratesLaws}
use exa_postgres_interface.Batches.Rows.{
  batch_rows, length-batch_rows, batch_rows-slice_batches, batch_rows-reverse_slice_batches,
  IsCounted,
}
use exa_postgres_interface.Cursor.{
  TextRow, CursorData, CursorStepRows, empty_like, data_row_count, step_rows_count, slice_step_rows,
  reverse_slice_step_rows,
}

module _ {ℓ κ} {A : Type ℓ} {B : Type κ} (f : A → B) where
  map-take : (n : ℕ) (xs : List A) → map f (take n xs) ≡ take n (map f xs)
  map-take zero xs = refl
  map-take (suc n) [] = refl
  map-take (suc n) (x ∷ xs) = ap (λ ys. f x ∷ ys) (map-take n xs)

  map-drop : (n : ℕ) (xs : List A) → map f (drop n xs) ≡ drop n (map f xs)
  map-drop zero xs = refl
  map-drop (suc n) [] = refl
  map-drop (suc n) (x ∷ xs) = map-drop n xs

  map-slice : (m n : ℕ) (xs : List A) → map f (take m (drop n xs)) ≡ take m (drop n (map f xs))
  map-slice m n xs = map-take m (drop n xs) ∙ ap (take m) (map-drop n xs)

  map-reverse : (xs : List A) → map f (reverse xs) ≡ reverse (map f xs)
  map-reverse [] = refl
  map-reverse (x ∷ xs) =
      ap (map f) (reverse-cons x xs)
      ∙ map-append f (reverse xs) (x ∷ [])
      ∙ ap (λ ys. ys ++ f x ∷ []) (map-reverse xs)
      ∙ sym (reverse-cons (f x) (map f xs))

  length-map : (xs : List A) → length (map f xs) ≡ length xs
  length-map [] = refl
  length-map (x ∷ xs) = ap suc (length-map xs)

module _ {ℓ} {A : Type ℓ} where
  -- The slices that the source takes of a vector of rows.
  vector_slice :
      (start end : ℕ) (xs : List A)
      → (if leb end start || leb (length xs) start
          then []
          else take (min end (length xs) - start) (drop start xs))
        ≡ take (end - start) (drop start xs)
  vector_slice start end xs = elim (Bool-cases (leb end start || leb (length xs) start)) [
    | inl nothing ↦ rw nothing (sym (slice_past start end xs (ground arith)))
    | inr some_rows ↦ rw some_rows (slice_clipped start end xs)
  ]

  vector_reverse_slice :
      (start end : ℕ) (xs : List A)
      → (if leb (min end (length xs)) start
          then []
          else reverse (take (min end (length xs) - start) (drop start xs)))
        ≡ reverse (take (end - start) (drop start xs))
  vector_reverse_slice start end xs = elim (Bool-cases (leb (min end (length xs)) start)) [
    | inl nothing ↦ rw nothing (ap reverse (sym (slice_past start end xs (ground arith))))
    | inr some_rows ↦ rw some_rows (ap reverse (slice_clipped start end xs))
  ]

-- Batches short enough for the 32-bit row indices of `reverse_batch`.
abbrev pub Counted : {k : Crates} → CursorData k → Type 0
Counted {k} (CursorData.arrow _ batches) = All (IsCounted k) batches
Counted (CursorData.typed _ _) = Unit

module _ {k : Crates} (laws : CratesLaws k) where
  abbrev pub AnyRow : Type 0
  AnyRow = laws.Row ⊎ TextRow

  abbrev pub view : CursorData k → List AnyRow
  view (CursorData.arrow _ batches) = map inl (batch_rows laws batches)
  view (CursorData.typed _ rows) = map inr rows

  abbrev pub step_view : CursorStepRows k → List AnyRow
  step_view (CursorStepRows.arrow batches) = map inl (batch_rows laws batches)
  step_view (CursorStepRows.typed rows) = map inr rows

  pub length-view : (d : CursorData k) → length (view d) ≡ data_row_count d
  unfolding data_row_count
  length-view (CursorData.arrow _ batches) = length-map inl _ ∙ length-batch_rows laws batches
  length-view (CursorData.typed _ rows) = length-map inr rows

  pub length-step_view : (r : CursorStepRows k) → step_rows_count r ≡ length (step_view r)
  unfolding step_rows_count
  length-step_view (CursorStepRows.arrow batches) =
      sym (length-map inl _ ∙ length-batch_rows laws batches)
  length-step_view (CursorStepRows.typed rows) = sym (length-map inr rows)

  pub step_view-empty_like : (d : CursorData k) → step_view (empty_like d) ≡ []
  unfolding empty_like
  step_view-empty_like (CursorData.arrow _ _) = refl
  step_view-empty_like (CursorData.typed _ _) = refl

  pub step_view-slice :
      (d : CursorData k) (start end : ℕ)
      → step_view (slice_step_rows d start end) ≡ take (end - start) (drop start (view d))
  unfolding slice_step_rows
  step_view-slice (CursorData.arrow _ batches) start end =
      ap (map inl) (batch_rows-slice_batches laws batches start end)
      ∙ map-slice inl (end - start) start (batch_rows laws batches)
  step_view-slice (CursorData.typed _ rows) start end =
      ap (map inr) (vector_slice start end rows) ∙ map-slice inr (end - start) start rows

  pub step_view-reverse_slice :
      (d : CursorData k) (start end : ℕ)
      → Counted d
      → step_view (reverse_slice_step_rows d start end)
        ≡ reverse (take (end - start) (drop start (view d)))
  unfolding reverse_slice_step_rows
  step_view-reverse_slice (CursorData.arrow _ batches) start end h =
      ap (map inl) (batch_rows-reverse_slice_batches laws batches start end h)
      ∙ map-reverse inl (take (end - start) (drop start (batch_rows laws batches)))
      ∙ ap reverse (map-slice inl (end - start) start (batch_rows laws batches))
  step_view-reverse_slice (CursorData.typed _ rows) start end h =
      ap (map inr) (vector_reverse_slice start end rows)
      ∙ map-reverse inr (take (end - start) (drop start rows))
      ∙ ap reverse (map-slice inr (end - start) start rows)
