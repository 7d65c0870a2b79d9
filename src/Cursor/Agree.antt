-- ===== src/Cursor/Agree.antt =====
-- FETCH and MOVE make the same movement.
use exa_postgres_interface.Base.{
  ℕ, suc, true, false, not, ◌&&◌, [], if◌then◌else◌, ◌≡◌, sym, ap, ◌∙◌, some, ok,
}
use exa_postgres_interface.Crates.{Crates, CratesLaws}
use exa_postgres_interface.Policy.Plan.{CursorDirection}
use exa_postgres_interface.Cursor.{
  GatewayCursor, CursorStep, data_row_count, direction_requires_scroll,
}
use exa_postgres_interface.Cursor.Apply.{apply}
use exa_postgres_interface.Cursor.Spec.{spec_move}
use exa_postgres_interface.Cursor.View.{step_view}
use exa_postgres_interface.Cursor.Movements.{IsValid, slot_of}
use exa_postgres_interface.Cursor.Correct.{IsRegular, apply-Implements}

-- A permitted movement of a valid cursor whose arguments overflow nothing, made by FETCH and by
-- MOVE: both return and leave the same cursor, MOVE hands out no rows, and both report the same number,
-- but where the movement asks for the current row with a count of 0, MOVE reports none.
pub fetch-move :
    {k : Crates} (laws : CratesLaws k) (c : GatewayCursor k) (d : CursorDirection) (fuel : ℕ)
    → IsValid c
    → IsRegular (data_row_count c.contents) d
    → (not c.scroll && direction_requires_scroll d) ≡ false
    → (fetched : GatewayCursor k × CursorStep k) × (moved : GatewayCursor k × CursorStep k) × (apply
          (suc (suc fuel))
          c
          d
          true
        ≡ some (ok fetched))
      × (apply (suc (suc fuel)) c d false ≡ some (ok moved))
      × (fetched.0 ≡ moved.0)
      × (moved.1.count ≡ (
          if (spec_move (data_row_count c.contents) (slot_of c.position) d).moves
          then fetched.1.count
          else 0))
      × (step_view laws moved.1.rows ≡ [])
fetch-move laws c d fuel v h allowed =
    let moves = (spec_move (data_row_count c.contents) (slot_of c.position) d).moves in
    let (fetched, e, f) = apply-Implements laws c d true fuel v h allowed in
    let (moved, e', m) = apply-Implements laws c d false fuel v h allowed in
    (
      fetched,
      moved,
      e,
      e',
      f.moved_to ∙ sym m.moved_to,
      m.counted ∙ ap (λ n. if moves then n else 0) (sym f.counted),
      m.given,
    )
