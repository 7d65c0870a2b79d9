-- ===== src/Cursor/Invariant.antt =====
-- What every answer of `GatewayCursor::apply` keeps, whatever the direction and its number.
use exa_postgres_interface.Base.{
  ℕ, zero, suc, ◌+◌, ◌-◌, ◌≤◌, min, Bool, true, false, not, ◌&&◌, ltb, Bool-cases, inl, inr, Option,
  none, some, ok, err, ◌≡◌, refl, sym, ap, subst, arith,
}
use exa_postgres_interface.Base.Int.{ℤ, pos, negsuc, sub_ℕ, ltb_ℤ, neg_i64, add_i64, eq_ℤ}
use exa_postgres_interface.Crates.{Crates}
use exa_postgres_interface.Policy.Plan.{CursorDirection}
use exa_postgres_interface.Cursor.{
  GatewayCursor, CursorStep, data_row_count, stay, forward_count, forward_all, backward_count,
  backward_all, seek, absolute, relative, direction_requires_scroll,
}
use exa_postgres_interface.Cursor.Apply.{Answer, forward, backward, with_len, move, apply}
use exa_postgres_interface.Cursor.Movements.{
  IsValid, at_slot, slot_of, len_of, forward_past, forward_within, forward_all_form, backward_past,
  backward_within, backward_all_past, backward_all_within, seek_form, slot_le,
}
use exa_postgres_interface.Cursor.Correct.{row_len_lem}

module _ {k : Crates} (c : GatewayCursor k) (v : IsValid c) (rr : Bool) where
  -- The cursor in one of its slots.
  abbrev Within : GatewayCursor k × CursorStep k → Type 0
  Within r = (slot : ℕ) × (slot ≤ data_row_count c.contents + 1) × (r.0 ≡ at_slot c slot)

  abbrev Kept : Answer k → Type 0
  Kept none = Unit
  Kept (some (err e)) = Unit
  Kept (some (ok r)) = Within r

  stay-Within : Within (stay c rr)
  unfolding stay
  stay-Within = (slot_of c.position, slot_le c v rr, ground arith)

  forward_count-Within : (m : ℕ) → Within (forward_count c (len_of c) (pos m) rr)
  forward_count-Within zero = unfold forward_count in stay-Within
  forward_count-Within (suc m) =
      let nn = data_row_count c.contents in
      let pp = slot_of c.position in
      elim (Bool-cases (ltb pp nn)) [
        | inl within ↦
            rw (forward_within c v rr m (ground arith))
              (min (pp + suc m) (nn + 1), omega arith, refl)
        | inr past ↦ rw (forward_past c v rr m (ground arith)) (nn + 1, omega arith, ground arith)
      ]

  forward_all-Within : Within (forward_all c (len_of c) rr)
  forward_all-Within =
      rw (forward_all_form c v rr) (data_row_count c.contents + 1, omega arith, ground arith)

  backward_count-Within : (m : ℕ) → Within (backward_count c (len_of c) (pos m) rr)
  backward_count-Within zero = unfold backward_count in stay-Within
  backward_count-Within (suc m) =
      let pp = slot_of c.position in
      elim (Bool-cases (ltb 1 pp)) [
        | inl within ↦
            rw (backward_within c v rr m (ground arith))
              (pp - suc m, omega (arith, slot_le c v rr), refl)
        | inr past ↦ rw (backward_past c v rr m (ground arith)) (0, omega arith, refl)
      ]

  backward_all-Within : Within (backward_all c (len_of c) rr)
  backward_all-Within = elim (Bool-cases (ltb 1 (slot_of c.position))) [
    | inl within ↦ rw (backward_all_within c v rr (ground arith)) (0, omega arith, refl)
    | inr past ↦ rw (backward_all_past c v rr (ground arith)) (0, omega arith, refl)
  ]

  seek-Within : (target : ℤ) → Within (seek c (len_of c) target rr)
  seek-Within (pos t) =
      let e : sub_ℕ (suc t) 1 ≡ pos t = ground arith in
      subst (λ z. Within (seek c (len_of c) z rr)) e
        (rw (seek_form c v rr (suc t))
          (min (suc t) (data_row_count c.contents + 1), omega arith, refl))
  seek-Within (negsuc j) = unfold seek in (0, omega arith, ground arith)

  absolute-Within : (target : ℤ) → Within (absolute c (len_of c) target rr)
  unfolding absolute
  absolute-Within target = elim (Bool-cases (eq_ℤ target (pos 0))) [
    | inl z ↦ rw (z, absolute) (0, omega arith, refl)
    | inr z ↦ rw (z, absolute) (seek-Within _)
  ]

  mutual
    unfolding forward backward

    forward-Kept : (fuel : ℕ) (count : Option ℤ) → Kept (forward fuel c count rr)
    forward-Kept zero count = tt
    forward-Kept (suc fuel) none = rw (row_len_lem c v, forward) forward_all-Within
    forward-Kept (suc fuel) (some (pos m)) =
        rw (row_len_lem c v, forward)
          (rw (let e : ltb_ℤ (pos m) (pos 0) ≡ false = ground arith in e) (forward_count-Within m))
    forward-Kept (suc fuel) (some (negsuc m)) =
        rw (row_len_lem c v, forward)
          (rw (let e : ltb_ℤ (negsuc m) (pos 0) ≡ true = ground arith in e)
            (backward-Kept fuel (some (neg_i64 (negsuc m)))))

    backward-Kept : (fuel : ℕ) (count : Option ℤ) → Kept (backward fuel c count rr)
    backward-Kept zero count = tt
    backward-Kept (suc fuel) none = rw (row_len_lem c v, backward) backward_all-Within
    backward-Kept (suc fuel) (some (pos m)) =
        rw (row_len_lem c v, backward)
          (rw (let e : ltb_ℤ (pos m) (pos 0) ≡ false = ground arith in e) (backward_count-Within m))
    backward-Kept (suc fuel) (some (negsuc m)) =
        rw (row_len_lem c v, backward)
          (rw (let e : ltb_ℤ (negsuc m) (pos 0) ≡ true = ground arith in e)
            (forward-Kept fuel (some (neg_i64 (negsuc m)))))

  with_len-Kept :
      (f : ℤ → GatewayCursor k × CursorStep k) → Within (f (len_of c)) → Kept (with_len c f)
  unfolding with_len
  with_len-Kept f h = rw (row_len_lem c v, with_len) h

  move-Kept : (fuel : ℕ) (d : CursorDirection) → Kept (move fuel c d rr)
  unfolding move
  move-Kept fuel CursorDirection.next = forward-Kept fuel (some (pos 1))
  move-Kept fuel CursorDirection.prior = backward-Kept fuel (some (pos 1))
  move-Kept fuel CursorDirection.first = with_len-Kept _ (absolute-Within (pos 1))
  move-Kept fuel CursorDirection.last = with_len-Kept _ (absolute-Within (negsuc 0))
  move-Kept fuel CursorDirection.all = forward-Kept fuel none
  move-Kept fuel (CursorDirection.absolute z) = with_len-Kept _ (absolute-Within z)
  move-Kept fuel (CursorDirection.relative z) =
      with_len-Kept _ (unfold relative in seek-Within (add_i64 c.position z))
  move-Kept fuel (CursorDirection.count z) = elim (Bool-cases (ltb_ℤ z (pos 0))) [
    | inl neg ↦ rw (neg, move) (backward-Kept fuel (some (neg_i64 z)))
    | inr nonneg ↦ rw (nonneg, move) (forward-Kept fuel (some z))
  ]
  move-Kept fuel (CursorDirection.forward count) = forward-Kept fuel count
  move-Kept fuel (CursorDirection.backward count) = backward-Kept fuel count

  apply-Kept : (fuel : ℕ) (d : CursorDirection) → Kept (apply fuel c d rr)
  unfolding apply
  apply-Kept fuel d = elim (Bool-cases (not c.scroll && direction_requires_scroll d)) [
    | inl refused ↦ rw (refused, apply) tt
    | inr allowed ↦ rw (allowed, apply) (move-Kept fuel d)
  ]

at_slot-IsValid :
    {k : Crates} (c : GatewayCursor k) (slot : ℕ)
    → IsValid c
    → slot ≤ data_row_count c.contents + 1
    → IsValid (at_slot c slot)
at_slot-IsValid c slot v h = record {
  lower = ground arith;
  upper = ground arith;
  fits = v.fits;
  counted = v.counted;
}

-- A call of `apply` that returns a cursor, from a valid one, in whatever direction and with whatever
-- number, returns a valid one with the same rows, which scrolls and is held as before: only the
-- position changes, and it stays between the place before the first row and the one behind the last.
pub apply-IsValid :
    {k : Crates} (c : GatewayCursor k) (d : CursorDirection) (rr : Bool) (fuel : ℕ)
    (r : GatewayCursor k × CursorStep k)
    → IsValid c
    → apply fuel c d rr ≡ some (ok r)
    → IsValid r.0 × (r.0.contents ≡ c.contents) × (r.0.scroll ≡ c.scroll) × (r.0.hold ≡ c.hold)
apply-IsValid c d rr fuel r v e =
    let (slot, h, g) = subst (Kept c v rr) e (apply-Kept c v rr fuel d) in
    (
      subst IsValid (sym g) (at_slot-IsValid c slot v h),
      ap (λ c. c.contents) g,
      ap (λ c. c.scroll) g,
      ap (λ c. c.hold) g,
    )
