-- ===== src/Cursor/Correct.antt =====
-- `GatewayCursor::apply` implements the movements of the abstract cursor.
use exa_postgres_interface.Base.{
  Bool-cases, leb, inl, inr, Option, Result, Result, Option, ℕ, zero, suc, ◌+◌, ◌-◌, ◌≤◌, ◌<◌, ◌^◌,
  Bool, true, false, not, ◌&&◌, none, some, ok, ◌≡◌, refl, ap, arith,
}
use exa_postgres_interface.Base.Int.{
  ltb_ℤ, ℤ, pos, negsuc, sub_ℕ, add_i64, neg_i64_of_IsI64, sub_i64_pos,
}
use exa_postgres_interface.Crates.{Crates, CratesLaws}
use exa_postgres_interface.Policy.Plan.{CursorDirection}
use exa_postgres_interface.Cursor.{
  backward_count, backward_all, forward_count, forward_all, seek, GatewayCursor, CursorStep,
  data_row_count, row_len, direction_requires_scroll, absolute, relative,
}
use exa_postgres_interface.Cursor.Apply.{with_len, forward, backward, move, apply}
use exa_postgres_interface.Cursor.Spec.{back, ahead, goto, Span, spec_move}
use exa_postgres_interface.Cursor.Movements.{IsValid, slot_of, len_of}
use exa_postgres_interface.Cursor.Refine.{
  Implements, ahead-Implements, ahead_all-Implements, back-Implements, back_all-Implements,
  goto-Implements,
}

-- A count whose negation is a number again.
abbrev pub IsCount : ℤ → Type 0
IsCount (pos m) = m < 2 ^ 63
IsCount (negsuc m) = suc m < 2 ^ 63

-- The arguments for which no sum or negation overflows, in a result set of `n` rows.
abbrev pub IsRegular : ℕ → CursorDirection → Type 0
IsRegular n (CursorDirection.count z) = IsCount z
IsRegular n (CursorDirection.forward (some z)) = IsCount z
IsRegular n (CursorDirection.backward (some z)) = IsCount z
IsRegular n (CursorDirection.absolute (pos t)) = t < 2 ^ 63
IsRegular n (CursorDirection.absolute (negsuc t)) = t < 2 ^ 63
IsRegular n (CursorDirection.relative (pos t)) = n + t < 2 ^ 63
IsRegular n (CursorDirection.relative (negsuc t)) = t + 2 ≤ 2 ^ 63
IsRegular n _ = Unit

pub row_len_lem :
    {k : Crates} (c : GatewayCursor k) → IsValid c → row_len c.contents ≡ ok (len_of c)
unfolding row_len
row_len_lem c v = ground arith

module _ {k : Crates} (laws : CratesLaws k) (c : GatewayCursor k) (v : IsValid c) (rr : Bool) where
  -- The call returns `r`, and `r` makes the movement `s`.
  abbrev Does : (Option (Result (GatewayCursor k × CursorStep k))) → Span → Type 0
  Does a s = (r : GatewayCursor k × CursorStep k) × (a ≡ some (ok r)) × Implements laws c rr s r

  abbrev span_of : CursorDirection → Span
  span_of d = spec_move (data_row_count c.contents) (slot_of c.position) d

  forward_pos :
      (fuel m : ℕ)
      → forward (suc fuel) c (some (pos m)) rr ≡ some (ok (forward_count c (len_of c) (pos m) rr))
  unfolding forward
  forward_pos fuel m =
      rw (row_len_lem c v, forward) (rw (let e : ltb_ℤ (pos m) (pos 0) ≡ false = ground arith in e))

  backward_pos :
      (fuel m : ℕ)
      → backward (suc fuel) c (some (pos m)) rr ≡ some (ok (backward_count c (len_of c) (pos m) rr))
  unfolding backward
  backward_pos fuel m =
      rw (row_len_lem c v, backward)
        (rw (let e : ltb_ℤ (pos m) (pos 0) ≡ false = ground arith in e))

  forward_neg :
      (fuel m : ℕ)
      → suc m < 2 ^ 63
      → forward (suc fuel) c (some (negsuc m)) rr ≡ backward fuel c (some (pos (suc m))) rr
  unfolding forward
  forward_neg fuel m h =
      rw (row_len_lem c v, forward)
        (rw (let e : ltb_ℤ (negsuc m) (pos 0) ≡ true = ground arith in e)
          (ap (λ z. backward fuel c (some z) rr) (neg_i64_of_IsI64 m h)))

  backward_neg :
      (fuel m : ℕ)
      → suc m < 2 ^ 63
      → backward (suc fuel) c (some (negsuc m)) rr ≡ forward fuel c (some (pos (suc m))) rr
  unfolding backward
  backward_neg fuel m h =
      rw (row_len_lem c v, backward)
        (rw (let e : ltb_ℤ (negsuc m) (pos 0) ≡ true = ground arith in e)
          (ap (λ z. forward fuel c (some z) rr) (neg_i64_of_IsI64 m h)))

  forward-none : (fuel : ℕ) → forward (suc fuel) c none rr ≡ some (ok (forward_all c (len_of c) rr))
  unfolding forward
  forward-none fuel = rw (row_len_lem c v, forward)

  backward-none :
      (fuel : ℕ) → backward (suc fuel) c none rr ≡ some (ok (backward_all c (len_of c) rr))
  unfolding backward
  backward-none fuel = rw (row_len_lem c v, backward)

  -- Every target before the first row is the slot 0.
  seek_negsuc : (j : ℕ) → seek c (len_of c) (negsuc j) rr ≡ seek c (len_of c) (negsuc 0) rr
  unfolding seek
  seek_negsuc j = ground arith

  seek_sub :
      (a b : ℕ) → seek c (len_of c) (sub_ℕ a (suc b)) rr ≡ seek c (len_of c) (sub_ℕ (a - b) 1) rr
  seek_sub a b = elim (Bool-cases (leb (suc b) a)) [
    | inl t ↦ ap (λ z. seek c (len_of c) z rr) (ground arith)
    | inr f ↦
        let e : sub_ℕ a (suc b) ≡ negsuc (b - a) = ground arith in
        let g : sub_ℕ (a - b) 1 ≡ negsuc 0 = ground arith in rw (e, g) (seek_negsuc (b - a))
  ]

  absolute-seek :
      (z : ℤ)
      → IsRegular (data_row_count c.contents) (CursorDirection.absolute z)
      → (slot : ℕ) × (span_of (CursorDirection.absolute z) ≡ goto (data_row_count c.contents) slot)
        × (absolute c (len_of c) z rr ≡ seek c (len_of c) (sub_ℕ slot 1) rr)
  unfolding absolute
  absolute-seek (pos zero) h = (0, refl, unfold seek in refl)
  absolute-seek (pos (suc t)) h = (suc t, refl, ground (arith, sub_i64_pos (suc t) 1 h))
  absolute-seek (negsuc t) h =
      let nn = data_row_count c.contents in
      let e : add_i64 (pos nn) (negsuc t) ≡ sub_ℕ nn (suc t) = unfold add_i64 in ground arith in
      (nn - t, refl, ground (arith, e, seek_sub nn t))

  last_seek :
      absolute c (len_of c) (negsuc 0) rr
      ≡ seek c (len_of c) (sub_ℕ (data_row_count c.contents) 1) rr
  unfolding absolute
  last_seek =
      let nn = data_row_count c.contents in
      let e : add_i64 (pos nn) (negsuc 0) ≡ sub_ℕ nn 1 = unfold add_i64 in ground arith in
      ground (arith, e)

  relative-seek :
      (z : ℤ)
      → IsRegular (data_row_count c.contents) (CursorDirection.relative z)
      → (slot : ℕ) × (span_of (CursorDirection.relative z) ≡ goto (data_row_count c.contents) slot)
        × (relative c (len_of c) z rr ≡ seek c (len_of c) (sub_ℕ slot 1) rr)
  unfolding relative
  relative-seek (pos t) h =
      let pp = slot_of c.position in
      let e : add_i64 c.position (pos t) ≡ sub_ℕ (pp + t) 1 = unfold add_i64 in ground arith in
      (pp + t, refl, rw e)
  relative-seek (negsuc t) h =
      let pp = slot_of c.position in
      let e : add_i64 c.position (negsuc t) ≡ sub_ℕ pp (suc (suc t)) =
        unfold add_i64 in ground arith in
      (pp - suc t, refl, rw e (seek_sub pp (suc t)))

  forward-Does :
      (fuel : ℕ) {m : ℕ}
      → m < 2 ^ 63
      → Does
          (forward (suc fuel) c (some (pos m)) rr)
          (ahead (data_row_count c.contents) (slot_of c.position) m)
  forward-Does fuel {m} h = (_, forward_pos fuel m, ahead-Implements laws c v rr m)

  backward-Does :
      (fuel : ℕ) {m : ℕ}
      → m < 2 ^ 63
      → Does
          (backward (suc fuel) c (some (pos m)) rr)
          (back (data_row_count c.contents) (slot_of c.position) m)
  backward-Does fuel {m} h = (_, backward_pos fuel m, back-Implements laws c v rr m)

  -- A movement by way of `seek`.
  seek-Does :
      (f : ℤ → GatewayCursor k × CursorStep k) (s : Span) (slot : ℕ)
      → s ≡ goto (data_row_count c.contents) slot
      → f (len_of c) ≡ seek c (len_of c) (sub_ℕ slot 1) rr
      → Does (with_len c f) s
  unfolding with_len
  seek-Does f s slot e g =
      (f (len_of c), rw (row_len_lem c v, with_len), rw (e, g) (goto-Implements laws c v rr slot))

  move-Does :
      (fuel : ℕ) (d : CursorDirection)
      → IsRegular (data_row_count c.contents) d
      → Does (move (suc (suc fuel)) c d rr) (span_of d)
  unfolding move
  move-Does fuel CursorDirection.next h = forward-Does (suc fuel) (omega arith)
  move-Does fuel CursorDirection.prior h = backward-Does (suc fuel) (omega arith)
  move-Does fuel CursorDirection.first h =
      let (slot, e, g) = absolute-seek (pos 1) (omega arith) in seek-Does _ _ slot e g
  move-Does fuel CursorDirection.last h = seek-Does _ _ (data_row_count c.contents) refl last_seek
  move-Does fuel CursorDirection.all h =
      (_, forward-none (suc fuel), ahead_all-Implements laws c v rr)
  move-Does fuel (CursorDirection.absolute z) h =
      let (slot, e, g) = absolute-seek z h in seek-Does _ _ slot e g
  move-Does fuel (CursorDirection.relative z) h =
      let (slot, e, g) = relative-seek z h in seek-Does _ _ slot e g
  move-Does fuel (CursorDirection.count (pos m)) h =
      rw (let e : ltb_ℤ (pos m) (pos 0) ≡ false = ground arith in e, move)
        (forward-Does (suc fuel) h)
  move-Does fuel (CursorDirection.count (negsuc m)) h =
      rw (let e : ltb_ℤ (negsuc m) (pos 0) ≡ true = ground arith in e, move)
        (rw (neg_i64_of_IsI64 m h) (backward-Does (suc fuel) h))
  move-Does fuel (CursorDirection.forward none) h =
      (_, forward-none (suc fuel), ahead_all-Implements laws c v rr)
  move-Does fuel (CursorDirection.forward (some (pos m))) h = forward-Does (suc fuel) h
  move-Does fuel (CursorDirection.forward (some (negsuc m))) h =
      rw (forward_neg (suc fuel) m h) (backward-Does fuel h)
  move-Does fuel (CursorDirection.backward none) h =
      (_, backward-none (suc fuel), back_all-Implements laws c v rr)
  move-Does fuel (CursorDirection.backward (some (pos m))) h = backward-Does (suc fuel) h
  move-Does fuel (CursorDirection.backward (some (negsuc m))) h =
      rw (backward_neg (suc fuel) m h) (forward-Does fuel h)

-- A permitted movement of a valid cursor whose arguments overflow nothing returns, with two calls at
-- most, and does what the abstract cursor does: it stops in the same slot, hands out exactly the rows
-- that it passes over, in the order in which it meets them, if they are asked for, and reports how
-- many they are; a count of 0 asks for the current row again, and reports nothing where no rows are
-- asked for.
pub apply-Implements :
    {k : Crates} (laws : CratesLaws k) (c : GatewayCursor k) (d : CursorDirection) (rr : Bool)
    (fuel : ℕ)
    → IsValid c
    → IsRegular (data_row_count c.contents) d
    → (not c.scroll && direction_requires_scroll d) ≡ false
    → (r : GatewayCursor k × CursorStep k) × (apply (suc (suc fuel)) c d rr ≡ some (ok r))
      × Implements laws c rr (spec_move (data_row_count c.contents) (slot_of c.position) d) r
unfolding apply
apply-Implements laws c d rr fuel v h allowed = rw (allowed, apply) (move-Does laws c v rr fuel d h)
