-- ===== src/Cursor/Movements.antt =====
-- Each movement of a cursor is the movement of the abstract cursor.
use exa_postgres_interface.Base.{
  leb, if◌then◌else◌, ◌&&◌, ltb, ℕ, zero, suc, ◌+◌, ◌-◌, ◌≤◌, ◌<◌, ◌^◌, min, Bool, ◌≡◌, arith,
}
use exa_postgres_interface.Base.Int.{
  saturating_sub_i64_pos, add_i64-sub_i64, ℤ, pos, negsuc, pos_part, neg_part, sub_ℕ, add_i64,
  sub_i64, saturating_sub_i64, add_i64_pos, sub_i64_pos,
}
use exa_postgres_interface.Crates.{Crates}
use exa_postgres_interface.Cursor.{
  seek, backward_all, reverse_slice_step_rows, CursorStep, forward_all, slice_step_rows,
  backward_count, empty_like, CursorStepRows, GatewayCursor, data_row_count, forward_start,
  backward_start, forward_requested, backward_requested, forward_count,
}
use exa_postgres_interface.Cursor.View.{Counted}

-- The slot of a position, and back.
abbrev pub slot_of : ℤ → ℕ
slot_of (pos n) = suc n
slot_of (negsuc n) = 0

abbrev pub position_of : ℕ → ℤ
position_of slot = sub_ℕ slot 1

module _ {k : Crates} where
  -- A position lies in a slot, and the slots can be counted by an `isize`.
  pub record IsValid (c : GatewayCursor k) : Type 0 where
    pub lower : neg_part c.position ≤ 1
    pub upper : pos_part c.position ≤ data_row_count c.contents
    pub fits : data_row_count c.contents + 2 < 2 ^ 63
    pub counted : Counted c.contents

  abbrev pub at_slot : GatewayCursor k → ℕ → GatewayCursor k
  at_slot c slot = record c { position = position_of slot }

  abbrev pub len_of : GatewayCursor k → ℤ
  len_of c = pos (data_row_count c.contents)

  forward_start_lem :
      (c : GatewayCursor k)
      → IsValid c
      → forward_start c (len_of c) ≡ pos (min (slot_of c.position) (data_row_count c.contents))
  unfolding forward_start add_i64
  forward_start_lem c v = ground arith

  backward_start_lem :
      (c : GatewayCursor k) → IsValid c → backward_start c (len_of c) ≡ sub_ℕ (slot_of c.position) 2
  unfolding backward_start sub_i64
  backward_start_lem c v = ground arith

forward_requested_lem :
    (m n s : ℕ)
    → n < 2 ^ 63
    → s ≤ n
    → forward_requested (pos m) (pos n) (pos s) ≡ pos (min m (n - s))
unfolding forward_requested saturating_sub_i64
forward_requested_lem m n s h hs = ground arith

backward_requested_lem :
    (m s : ℕ) → s < 2 ^ 63 - 1 → backward_requested (pos m) (pos s) ≡ pos (min m (s + 1))
unfolding backward_requested
backward_requested_lem m s h = rw (add_i64_pos s 1 (omega arith), backward_requested) (ground arith)

module _ {k : Crates} where
  -- What a call of each movement returns, in closed form.
  abbrev pub answer : GatewayCursor k → ℤ → CursorStepRows k → ℕ → GatewayCursor k × CursorStep k
  answer c position rows count =
      (record c { position = position }, record { rows = rows; count = count })

  abbrev pub rows_if : Bool → CursorStepRows k → GatewayCursor k → CursorStepRows k
  rows_if rr rows c = if rr then rows else empty_like c.contents

  module _ (c : GatewayCursor k) (v : IsValid c) (rr : Bool) where
    abbrev pub n : ℕ
    n = data_row_count c.contents

    abbrev pub p : ℕ
    p = slot_of c.position

    pub slot_le : p ≤ n + 1
    slot_le = ground arith

    pub forward_past :
        (m : ℕ)
        → n ≤ p
        → forward_count c (len_of c) (pos (suc m)) rr ≡ answer c (pos n) (empty_like c.contents) 0
    unfolding forward_count
    forward_past m h = rw (forward_start_lem c v) (ground arith)

    pub forward_within :
        (m : ℕ)
        → p < n
        → forward_count c (len_of c) (pos (suc m)) rr
          ≡ answer c
              (position_of (min (p + suc m) (n + 1)))
              (rows_if rr (slice_step_rows c.contents p (p + min (suc m) (n - p))) c)
              (min (suc m) (n - p))
    unfolding forward_count
    forward_within m h =
        let e : min p n ≡ p = omega arith in
        rw (forward_start_lem c v) (
          rw e (
            rw (forward_requested_lem (suc m) n p (omega arith) (omega arith)) (
              rw (add_i64_pos p (min (suc m) (n - p)) (omega arith))
                (ground (arith, sub_i64_pos (p + min (suc m) (n - p)) 1)))))

    pub forward_all_form :
        forward_all c (len_of c) rr
        ≡ answer c
            (pos n)
            (rows_if (rr && ltb (min p n) n) (slice_step_rows c.contents (min p n) n) c)
            (n - min p n)
    unfolding forward_all
    forward_all_form =
        rw (forward_start_lem c v)
          (rw (saturating_sub_i64_pos n (min p n) (omega arith) (omega arith)) (ground arith))

    pub backward_past :
        (m : ℕ)
        → p ≤ 1
        → backward_count c (len_of c) (pos (suc m)) rr
          ≡ answer c (negsuc 0) (empty_like c.contents) 0
    unfolding backward_count
    backward_past m h = rw (backward_start_lem c v) (ground arith)

    pub backward_within :
        (m : ℕ)
        → 1 < p
        → backward_count c (len_of c) (pos (suc m)) rr
          ≡ answer c
              (position_of (p - suc m))
              (rows_if rr
                (reverse_slice_step_rows c.contents (p - 1 - min (suc m) (p - 1)) (p - 1))
                c)
              (min (suc m) (p - 1))
    unfolding backward_count
    backward_within m h =
        let q : ℕ = p - 2 in
        let e : sub_ℕ p 2 ≡ pos q = ground arith in
        let e1 : q + 1 ≡ p - 1 = omega arith in
        rw (backward_start_lem c v) (
          rw e (
            rw (backward_requested_lem (suc m) q (omega (arith, slot_le))) (
              rw (add_i64_pos q 1 (omega (arith, slot_le))) (
                rw (add_i64-sub_i64 q (min (suc m) (q + 1)) (omega (arith, slot_le)) (omega arith))
                  (rw e1 (ground arith))))))

    pub backward_all_past :
        p ≤ 1 → backward_all c (len_of c) rr ≡ answer c (negsuc 0) (empty_like c.contents) 0
    unfolding backward_all
    backward_all_past h = rw (backward_start_lem c v) (ground arith)

    pub backward_all_within :
        1 < p
        → backward_all c (len_of c) rr
          ≡ answer c
              (negsuc 0)
              (rows_if rr (reverse_slice_step_rows c.contents 0 (p - 1)) c)
              (p - 1)
    unfolding backward_all
    backward_all_within h =
        let q : ℕ = p - 2 in
        let e : sub_ℕ p 2 ≡ pos q = ground arith in
        let e1 : q + 1 ≡ p - 1 = omega arith in
        rw (backward_start_lem c v)
          (rw e (rw (add_i64_pos q 1 (omega (arith, slot_le))) (rw e1 (ground arith))))

    pub seek_form :
        (slot : ℕ)
        → seek c (len_of c) (sub_ℕ slot 1) rr
          ≡ answer c
              (position_of (min slot (n + 1)))
              (if leb 1 slot && leb slot n
                then rows_if rr (slice_step_rows c.contents (slot - 1) slot) c
                else empty_like c.contents)
              (if leb 1 slot && leb slot n then 1 else 0)
    unfolding seek
    seek_form zero = ground arith
    seek_form (suc s) = let e : sub_ℕ (suc s) 1 ≡ pos s = ground arith in rw e (ground arith)
