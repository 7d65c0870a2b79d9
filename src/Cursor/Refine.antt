-- ===== src/Cursor/Refine.antt =====
-- Each movement of a cursor is the movement of the abstract cursor.
use exa_postgres_interface.Base.{
  length-drop, length-take, List, ℕ, zero, suc, ◌+◌, ◌-◌, ◌≤◌, min, [], reverse, Bool, true, false,
  ◌&&◌, ◌||◌, leb, ltb, if◌then◌else◌, ◌≡◌, refl, sym, ap, ap₂, ◌∙◌, arith, length, take, drop,
  Bool-cases, inl, inr,
}
use exa_postgres_interface.Base.Int.{as_usize, ltb_ℤ, sub_ℕ, leb_ℤ, pos}
use exa_postgres_interface.Crates.{Crates, CratesLaws}
use exa_postgres_interface.Cursor.{
  CursorStepRows, GatewayCursor, CursorStep, empty_like, data_row_count, step_rows_count,
  slice_step_rows, reverse_slice_step_rows, current_row_step_rows, stay, forward_count, forward_all,
  backward_count, backward_all, seek,
}
use exa_postgres_interface.Cursor.Spec.{Span, span_rows, ahead, back, goto}
use exa_postgres_interface.Cursor.View.{
  AnyRow, view, step_view, length-view, length-step_view, step_view-empty_like, step_view-slice,
  step_view-reverse_slice,
}
use exa_postgres_interface.Cursor.Movements.{
  IsValid, at_slot, len_of, slot_of, rows_if, forward_past, forward_within, forward_all_form,
  backward_past, backward_within, backward_all_past, backward_all_within, seek_form, slot_le,
}

module _ {k : Crates} (laws : CratesLaws k) where
  -- A call that returns `r` has made the movement `s`: the new slot, the count that it reports and
  -- the rows that it hands out. A count of 0 with no rows asked for reports nothing.
  pub record Implements (c : GatewayCursor k) (rr : Bool) (s : Span)
      (r : GatewayCursor k × CursorStep k) : Type 0 where
    pub moved_to : r.0 ≡ at_slot c s.slot
    pub counted : r.1.count ≡ (if rr || s.moves then s.moved else 0)
    pub given : step_view laws r.1.rows ≡ (if rr then span_rows s (view laws c.contents) else [])

  given_rows :
      (c : GatewayCursor k) (rr : Bool) (r : CursorStepRows k) (xs : List (AnyRow laws))
      → step_view laws r ≡ xs
      → step_view laws (rows_if rr r c) ≡ (if rr then xs else [])
  given_rows c true r xs h = h
  given_rows c false r xs h = step_view-empty_like laws c.contents

  given_none :
      (c : GatewayCursor k) (rr : Bool) (xs : List (AnyRow laws))
      → xs ≡ []
      → step_view laws (empty_like c.contents) ≡ (if rr then xs else [])
  given_none c true xs h = step_view-empty_like laws c.contents ∙ sym h
  given_none c false xs h = step_view-empty_like laws c.contents

  counted_if : (rr : Bool) (m : ℕ) → ◌≡◌ {A = ℕ} m (if rr || true then m else 0)
  counted_if true m = refl
  counted_if false m = refl

  module _ (c : GatewayCursor k) (v : IsValid c) (rr : Bool) where
    abbrev rows : List (AnyRow laws)
    rows = view laws c.contents

    -- A run of rows forwards from the index `from`, and backwards to it.
    run_ahead :
        (from m : ℕ)
        → step_view laws (slice_step_rows c.contents from (from + m)) ≡ take m (drop from rows)
    run_ahead from m =
        step_view-slice laws c.contents from (from + m)
        ∙ ap (λ j. take j (drop from rows)) (let e : from + m - from ≡ m = omega arith in e)

    run_back :
        (to m : ℕ)
        → m ≤ to
        → step_view laws (reverse_slice_step_rows c.contents (to - m) to)
          ≡ reverse (take m (drop (to - m) rows))
    run_back to m h =
        step_view-reverse_slice laws c.contents (to - m) to v.counted
        ∙ ap (λ j. reverse (take j (drop (to - m) rows)))
            (let e : to - (to - m) ≡ m = omega arith in e)

    at_slot_self : at_slot c (slot_of c.position) ≡ c
    at_slot_self = ground arith

    current_row :
        step_view laws (current_row_step_rows c)
        ≡ take
            (if leb 1 (slot_of c.position)
              then (if leb (slot_of c.position) (data_row_count c.contents) then 1 else 0)
              else 0)
            (drop (slot_of c.position - 1) rows)
    unfolding current_row_step_rows
    current_row =
        let nn = data_row_count c.contents in
        let pp = slot_of c.position in
        let on : ℕ = if leb 1 pp then (if leb pp nn then 1 else 0) else 0 in
        elim (Bool-cases (leb_ℤ (pos 0) c.position && ltb_ℤ c.position (pos nn))) [
          | inl here ↦ rw here (
              run_ahead (as_usize c.position) 1
              ∙ ap₂ (λ i j. take i (drop j rows)) (let e : 1 ≡ on = ground arith in e)
                  (let e : as_usize c.position ≡ pp - 1 = ground arith in e))
          | inr off ↦ rw off (
              step_view-empty_like laws c.contents
              ∙ sym (ap (λ i. take i (drop (pp - 1) rows)) (let e : on ≡ 0 = ground arith in e)))
        ]

    current_count : step_rows_count (current_row_step_rows c) ≡ (
        if leb 1 (slot_of c.position)
        then (if leb (slot_of c.position) (data_row_count c.contents) then 1 else 0)
        else 0)
    current_count =
        let pp = slot_of c.position in
        ground (
          arith,
          length-step_view laws (current_row_step_rows c),
          ap length current_row,
          length-take
              (if leb 1 pp then (if leb pp (data_row_count c.contents) then 1 else 0) else 0)
              (drop (pp - 1) rows),
          length-drop (pp - 1) rows,
          length-view laws c.contents,
        )

    stay-Implements :
        Implements c rr (ahead (data_row_count c.contents) (slot_of c.position) 0) (stay c rr)
    unfolding stay
    stay-Implements = record {
      moved_to = sym at_slot_self;
      counted = elim (Bool-cases rr) [ inl t ↦ rw t current_count | inr f ↦ rw f ];
      given = given_rows c rr (current_row_step_rows c) _ current_row;
    }

    pub ahead-Implements :
        (m : ℕ)
        → Implements c rr
            (ahead (data_row_count c.contents) (slot_of c.position) m)
            (forward_count c (len_of c) (pos m) rr)
    ahead-Implements zero = unfold forward_count in stay-Implements
    ahead-Implements (suc m) =
        let nn = data_row_count c.contents in
        let pp = slot_of c.position in
        elim (Bool-cases (ltb pp nn)) [
          | inl within ↦ rw (forward_within c v rr m (ground arith)) (record {
            moved_to = refl;
            counted = counted_if rr (min (suc m) (nn - pp));
            given = given_rows c rr _ _ (run_ahead pp (min (suc m) (nn - pp)));
          })
          | inr past ↦
              let e : min (suc m) (nn - pp) ≡ zero = ground arith in
              rw (forward_past c v rr m (ground arith)) (record {
                moved_to = ground arith;
                counted = ground arith;
                given = given_none c rr _ (rw e);
              })
        ]

    pub ahead_all-Implements :
        Implements c rr
          (ahead (data_row_count c.contents) (slot_of c.position) (suc (data_row_count c.contents)))
          (forward_all c (len_of c) rr)
    ahead_all-Implements =
        let nn = data_row_count c.contents in
        let pp = slot_of c.position in
        rw (forward_all_form c v rr) (record {
          moved_to = ground arith;
          counted = ground arith;
          given = elim (Bool-cases (ltb (min pp nn) nn)) [
            | inl within ↦
                let e : rr && true ≡ rr = ground arith in
                rw within (
                  rw e (
                    given_rows c rr _ _ (
                      step_view-slice laws c.contents (min pp nn) nn
                      ∙ ap₂ (λ i j. take i (drop j rows))
                          (let e : nn - min pp nn ≡ min (suc nn) (nn - pp) = omega arith in e)
                          (let e : min pp nn ≡ pp = ground arith in e))))
            | inr past ↦
                let e : rr && false ≡ false = ground arith in
                let z : min (suc nn) (nn - pp) ≡ zero = ground arith in
                rw past (rw e (given_none c rr _ (rw z)))
          ];
        })

    pub back-Implements :
        (m : ℕ)
        → Implements c rr
            (back (data_row_count c.contents) (slot_of c.position) m)
            (backward_count c (len_of c) (pos m) rr)
    back-Implements zero = unfold backward_count in stay-Implements
    back-Implements (suc m) =
        let pp = slot_of c.position in
        elim (Bool-cases (ltb 1 pp)) [
          | inl within ↦ rw (backward_within c v rr m (ground arith)) (record {
            moved_to = refl;
            counted = counted_if rr (min (suc m) (pp - 1));
            given = given_rows c rr _ _ (run_back (pp - 1) (min (suc m) (pp - 1)) (omega arith));
          })
          | inr past ↦
              let e : min (suc m) (pp - 1) ≡ zero = ground arith in
              rw (backward_past c v rr m (ground arith)) (record {
                moved_to = ground arith;
                counted = ground arith;
                given = given_none c rr _ (rw e);
              })
        ]

    pub back_all-Implements :
        Implements c rr
          (back (data_row_count c.contents) (slot_of c.position) (suc (data_row_count c.contents)))
          (backward_all c (len_of c) rr)
    back_all-Implements =
        let nn = data_row_count c.contents in
        let pp = slot_of c.position in
        elim (Bool-cases (ltb 1 pp)) [
          | inl within ↦
              let e : pp - 1 ≡ min (suc nn) (pp - 1) = omega (arith, slot_le c v rr) in
              let z : pp - 1 - min (suc nn) (pp - 1) ≡ zero = omega arith in
              rw (backward_all_within c v rr (ground arith)) (record {
                moved_to = ground (arith, slot_le c v rr);
                counted = ground (arith, slot_le c v rr);
                given = given_rows c rr _ _ (
                    step_view-reverse_slice laws c.contents 0 (pp - 1) v.counted
                    ∙ ap₂ (λ i j. reverse (take i (drop j rows)))
                        (let d : pp - 1 - 0 ≡ min (suc nn) (pp - 1) =
                            omega (arith, slot_le c v rr) in
                          d)
                        (sym z));
              })
          | inr past ↦
              let e : min (suc nn) (pp - 1) ≡ zero = ground arith in
              rw (backward_all_past c v rr (ground arith)) (record {
                moved_to = ground arith;
                counted = ground arith;
                given = given_none c rr _ (rw e);
              })
        ]

    pub goto-Implements :
        (slot : ℕ)
        → Implements c rr
            (goto (data_row_count c.contents) slot)
            (seek c (len_of c) (sub_ℕ slot 1) rr)
    goto-Implements slot =
        let nn = data_row_count c.contents in
        let at : ℕ = min slot (nn + 1) in
        let on : ℕ = if leb 1 at then (if leb at nn then 1 else 0) else 0 in
        elim (Bool-cases (leb 1 slot && leb slot nn)) [
          | inl here ↦ rw (seek_form c v rr slot) (
              rw here (record {
                moved_to = refl;
                counted = ground arith;
                given = given_rows c rr _ _ (
                    step_view-slice laws c.contents (slot - 1) slot
                    ∙ ap₂ (λ i j. take i (drop j rows))
                        (let e : slot - (slot - 1) ≡ on = ground arith in e)
                        (let e : slot - 1 ≡ at - 1 = ground arith in e));
              }))
          | inr off ↦ rw (seek_form c v rr slot) (
              rw off (record {
                moved_to = refl;
                counted = ground arith;
                given =
                    given_none c rr _
                      (ap (λ i. take i (drop (at - 1) rows)) (let e : on ≡ 0 = ground arith in e));
              }))
        ]
