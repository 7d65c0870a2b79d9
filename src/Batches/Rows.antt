-- ===== src/Batches/Rows.antt =====
-- The rows that slices of a list of batches hold.
use exa_postgres_interface.Base.{
  ℕ, zero, suc, ◌+◌, ◌-◌, ◌%◌, ◌^◌, ◌≤◌, ◌<◌, min, max, List, [], ◌∷◌, ◌++◌, reverse, map, ltb, leb,
  ◌==◌, true, inl, inr, ◌≡◌, refl, sym, ap, ap₂, ◌∙◌, arith, All, length, take, drop, get_elem?,
  some, Bool-cases, length-append, Option-cases, All-append, length-take, length-drop, take-append,
  drop-append, take-min, take-nil, drop-nil, append-nil, append_assoc,
}
use mathlib.Core.List.{reverse-cons, reverse-append, map-append}
use exa_postgres_interface.Crates.{Crates, CratesLaws, gather}
use exa_postgres_interface.Batches.{
  range, total_rows, slice_from, slice_batches, reverse_batch, reverse_slice_batches,
}

module _ {k : Crates} (laws : CratesLaws k) where
  abbrev pub batch_rows : List k.RecordBatch → List laws.Row
  batch_rows [] = []
  batch_rows (b ∷ bs) = laws.rows b ++ batch_rows bs

  pub length-batch_rows : (bs : List k.RecordBatch) → length (batch_rows bs) ≡ total_rows k bs
  length-batch_rows [] = refl
  length-batch_rows (b ∷ bs) =
      omega (
        arith,
        length-append (laws.rows b) (batch_rows bs),
        laws.length_rows b,
        length-batch_rows bs,
      )

-- The part of a slice that one batch holds, and the part that the others hold.
window_append {ℓ} :
    {A : Type ℓ} (start end offset : ℕ) (xs ys : List A)
    → take (end - max start offset) (drop (start - offset) (xs ++ ys))
      ≡ take (min (end - offset) (length xs) - (start - offset)) (drop (start - offset) xs)
        ++ take (end - max start (offset + length xs)) (drop (start - (offset + length xs)) ys)
window_append start end offset xs ys =
    let k = end - max start offset in
    let d = start - offset in
    let here : take k (drop d xs) ≡ take (min (end - offset) (length xs) - d) (drop d xs) =
      sym (take-min k (drop d xs))
      ∙ ap (λ n. take n (drop d xs))
          (let e : min k (length (drop d xs)) ≡ min (end - offset) (length xs) - d =
              omega (arith, length-drop d xs) in
            e) in
    let there : take (k - length (drop d xs)) (drop (d - length xs) ys)
        ≡ take (end - max start (offset + length xs)) (drop (start - (offset + length xs)) ys) =
      ap₂ (λ m n. take m (drop n ys)) (omega (arith, length-drop d xs)) (omega arith) in
    ap (take k) (drop-append d xs ys)
    ∙ take-append k (drop d xs) (drop (d - length xs) ys)
    ∙ ap₂ ◌++◌ here there

eq_nil_of_length {ℓ} : {A : Type ℓ} (xs : List A) → length xs ≡ 0 → xs ≡ []
eq_nil_of_length [] h = refl
eq_nil_of_length (x ∷ xs) h = absurd (omega arith)

window_past {ℓ} :
    {A : Type ℓ} (start end offset : ℕ) (xs : List A)
    → end ≤ max start offset
    → take (end - max start offset) xs ≡ []
window_past start end offset xs h = rw (let e : end - max start offset ≡ zero = omega arith in e)

module _ {k : Crates} (laws : CratesLaws k) where
  batch_rows-slice_from :
      (start end offset : ℕ) (bs : List k.RecordBatch)
      → start < end
      → batch_rows laws (slice_from k start end offset bs)
        ≡ take (end - max start offset) (drop (start - offset) (batch_rows laws bs))
  unfolding slice_from
  batch_rows-slice_from start end offset [] h = rw (drop-nil (start - offset)) (sym (take-nil _))
  batch_rows-slice_from start end offset (b ∷ bs) h =
      let len = k.num_rows b in
      let d = start - offset in
      let e = min (end - offset) len in
      let split =
        rw (laws.length_rows b) at
          (window_append start end offset (laws.rows b) (batch_rows laws bs)) in
      let rest = batch_rows-slice_from start end (offset + len) bs h in
      elim (Bool-cases (len == 0)) [
        | inl none_here ↦ rw none_here (
            rw (eq_nil_of_length (laws.rows b) (ground (arith, laws.length_rows b)))
              (batch_rows-slice_from start end offset bs h))
        | inr some_here ↦ rw some_here (elim (Bool-cases (leb (offset + len) start)) [
          | inl before ↦
              rw before (rest ∙ sym (split ∙ (rw (let z : e - d ≡ zero = ground arith in z))))
          | inr reaches ↦ rw reaches (elim (Bool-cases (leb end offset)) [
            | inl past ↦ rw past (sym (window_past start end offset _ (ground arith)))
            | inr inside ↦ rw inside (elim (Bool-cases (ltb d e)) [
              | inl cut ↦
                  rw cut (ap₂ ◌++◌ (laws.rows_slice b d (e - d) (ground arith)) rest ∙ sym split)
              | inr nothing ↦
                  rw nothing (rest ∙ sym (split ∙ (rw (let z : e - d ≡ zero = ground arith in z))))
            ])
          ])
        ])
      ]

  -- `slice_batches` holds the rows from `start` up to `end` of all the batches put together, wherever
  -- the batches are cut: none if `start` is not below `end`, and those that there are if `end` is
  -- behind the last row.
  pub batch_rows-slice_batches :
      (bs : List k.RecordBatch) (start end : ℕ)
      → batch_rows laws (slice_batches k bs start end)
        ≡ take (end - start) (drop start (batch_rows laws bs))
  unfolding slice_batches
  batch_rows-slice_batches bs start end = elim (Bool-cases (leb end start)) [
    | inl nothing ↦ rw nothing (rw (let z : end - start ≡ zero = ground arith in z))
    | inr some_rows ↦ rw some_rows (
        batch_rows-slice_from start end 0 bs (ground arith)
        ∙ ap₂ (λ m n. take (end - m) (drop n (batch_rows laws bs))) (omega arith) (omega arith))
  ]

module _ {ℓ} {A : Type ℓ} where
  gather-append :
      (xs : List A) (is js : List ℕ) → gather xs (is ++ js) ≡ gather xs is ++ gather xs js
  gather-append xs [] js = refl
  gather-append xs (i ∷ is) js = elim (Option-cases (get_elem? xs i)) [
    | inl out ↦ rw (out, gather) (gather-append xs is js)
    | inr (x, e) ↦ rw (e, gather) (ap (◌∷◌ x) (gather-append xs is js))
  ]

  gather-reverse : (xs : List A) (is : List ℕ) → gather xs (reverse is) ≡ reverse (gather xs is)
  gather-reverse xs [] = refl
  gather-reverse xs (i ∷ is) = rw (reverse-cons i is) (
      gather-append xs (reverse is) (i ∷ []) ∙ elim (Option-cases (get_elem? xs i)) [
        | inl out ↦ rw (out, gather) (append-nil _ ∙ gather-reverse xs is)
        | inr (x, e) ↦
            rw (e, gather)
              (ap (λ ys. ys ++ x ∷ []) (gather-reverse xs is) ∙ sym (reverse-cons x (gather xs is)))
      ])

  get_elem?_at :
      (pre : List A) (x : A) (xs : List A) → get_elem? (pre ++ x ∷ xs) (length pre) ≡ some x
  get_elem?_at [] x xs = refl
  get_elem?_at (y ∷ pre) x xs = get_elem?_at pre x xs

  gather-range : (pre xs : List A) → gather (pre ++ xs) (range (length pre) (length xs)) ≡ xs
  gather-range pre [] = refl
  gather-range pre (x ∷ xs) =
      rw (get_elem?_at pre x xs, gather)
        (ap (◌∷◌ x) (
          ap₂ (λ ys n. gather ys (range n (length xs))) (sym (append_assoc pre (x ∷ []) xs))
            (let e : suc (length pre) ≡ length (pre ++ x ∷ []) =
                omega (arith, length-append pre (x ∷ [])) in
              e)
          ∙ gather-range (pre ++ x ∷ []) xs))

All-reverse {ℓ κ} : {A : Type ℓ} (P : A → Type κ) (xs : List A) → All P xs → All P (reverse xs)
All-reverse P [] h = h
All-reverse P (x ∷ xs) h =
    rw (reverse-cons x xs) (All-append P (reverse xs) (x ∷ []) (All-reverse P xs h.1) (h.0, tt))

range_below : (n from bound : ℕ) → from + n ≤ bound → All (λ i. i < bound) (range from n)
range_below zero from bound h = tt
range_below (suc n) from bound h = (omega arith, range_below n (suc from) bound (omega arith))

reverse_short {ℓ} : {A : Type ℓ} (xs : List A) → length xs ≤ 1 → reverse xs ≡ xs
reverse_short [] h = refl
reverse_short (x ∷ []) h = refl
reverse_short (x ∷ y ∷ xs) h = absurd (omega arith)

-- A batch that `len as u32` counts in full.
abbrev pub IsCounted : (k : Crates) → k.RecordBatch → Type 0
IsCounted k b = k.num_rows b < 2 ^ 32

module _ {k : Crates} (laws : CratesLaws k) where
  rows-reverse_batch :
      (b : k.RecordBatch) → IsCounted k b → laws.rows (reverse_batch k b) ≡ reverse (laws.rows b)
  unfolding reverse_batch
  rows-reverse_batch b h = elim (Bool-cases (leb (k.num_rows b) 1)) [
    | inl short ↦ rw short (sym (reverse_short (laws.rows b) (ground (arith, laws.length_rows b))))
    | inr long ↦ rw long (
        laws.rows_take_rows b (reverse (range 0 (k.num_rows b % 2 ^ 32)))
          (All-reverse _ _ (range_below (k.num_rows b % 2 ^ 32) 0 (k.num_rows b) (omega arith)))
        ∙ gather-reverse (laws.rows b) (range 0 (k.num_rows b % 2 ^ 32))
        ∙ ap (λ n. reverse (gather (laws.rows b) (range 0 n)))
            (let e : k.num_rows b % 2 ^ 32 ≡ length (laws.rows b) =
                omega (arith, laws.length_rows b) in
              e)
        ∙ ap reverse (gather-range [] (laws.rows b)))
  ]

  batch_rows-append :
      (xs ys : List k.RecordBatch)
      → batch_rows laws (xs ++ ys) ≡ batch_rows laws xs ++ batch_rows laws ys
  batch_rows-append [] ys = refl
  batch_rows-append (x ∷ xs) ys = simp (batch_rows-append xs ys, append_assoc)

  batch_rows-reverse_batches :
      (bs : List k.RecordBatch)
      → All (IsCounted k) bs
      → batch_rows laws (map (reverse_batch k) (reverse bs)) ≡ reverse (batch_rows laws bs)
  batch_rows-reverse_batches [] h = refl
  batch_rows-reverse_batches (b ∷ bs) (hb, hbs) =
      ap (λ ys. batch_rows laws (map (reverse_batch k) ys)) (reverse-cons b bs)
      ∙ ap (batch_rows laws) (map-append (reverse_batch k) (reverse bs) (b ∷ []))
      ∙ batch_rows-append (map (reverse_batch k) (reverse bs)) (reverse_batch k b ∷ [])
      ∙ ap₂ ◌++◌ (batch_rows-reverse_batches bs hbs) (append-nil _ ∙ rows-reverse_batch b hb)
      ∙ sym (reverse-append (laws.rows b) (batch_rows laws bs))

  slice_from-IsCounted :
      (start end offset : ℕ) (bs : List k.RecordBatch)
      → All (IsCounted k) bs
      → All (IsCounted k) (slice_from k start end offset bs)
  unfolding slice_from
  slice_from-IsCounted start end offset [] h = tt
  slice_from-IsCounted start end offset (b ∷ bs) (hb, hbs) =
      let d = start - offset in
      let n = min (end - offset) (k.num_rows b) - d in
      let e : ltb d (min (end - offset) (k.num_rows b)) ≡ true → k.num_rows (k.slice b d n) ≤ n =
        λ (h : ltb d (min (end - offset) (k.num_rows b)) ≡ true). omega (
          arith,
          ap length (laws.rows_slice b d n (ground arith)),
          laws.length_rows (k.slice b d n),
          length-take n (drop d (laws.rows b)),
        ) in
      ground (
        arith,
        slice_from-IsCounted start end offset bs hbs,
        slice_from-IsCounted start end (offset + k.num_rows b) bs hbs,
      )

  slice_batches-IsCounted :
      (start end : ℕ) (bs : List k.RecordBatch)
      → All (IsCounted k) bs
      → All (IsCounted k) (slice_batches k bs start end)
  unfolding slice_batches
  slice_batches-IsCounted start end bs h = elim (Bool-cases (leb end start)) [
    | inl nothing ↦ rw nothing tt
    | inr some_rows ↦ rw some_rows (slice_from-IsCounted start end 0 bs h)
  ]

  -- `reverse_slice_batches` holds the rows from `start` up to `end` of all the batches put together,
  -- the last one first, if each batch has fewer than 2^32 rows.
  pub batch_rows-reverse_slice_batches :
      (bs : List k.RecordBatch) (start end : ℕ)
      → All (IsCounted k) bs
      → batch_rows laws (reverse_slice_batches k bs start end)
        ≡ reverse (take (end - start) (drop start (batch_rows laws bs)))
  unfolding reverse_slice_batches
  batch_rows-reverse_slice_batches bs start end h =
      batch_rows-reverse_batches (slice_batches k bs start end)
        (slice_batches-IsCounted start end bs h)
      ∙ ap reverse (batch_rows-slice_batches laws bs start end)
