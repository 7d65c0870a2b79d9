-- ===== src/Cursor.antt =====
-- `GatewayCursor` of src/pg_server.rs: a materialised result set and a position in it. This file has
-- the movements; `Apply` has their dispatch.
pub mod Apply
pub mod Spec
pub mod View
pub mod Movements
pub mod Refine
pub mod Correct
pub mod Invariant
pub mod Overflow
pub mod Agree
use exa_postgres_interface.Base.{
  ℕ, ◌+◌, ◌-◌, ◌^◌, min, Bool, true, false, ◌&&◌, ◌||◌, Option, List, [], reverse, ltb, leb,
  if◌then◌else◌, length, take, drop, Result, ok, err, PgError,
}
use exa_postgres_interface.Base.Int.{
  ℤ, pos, negsuc, ltb_ℤ, leb_ℤ, eq_ℤ, min_ℤ, clamp, add_i64, sub_i64, as_usize, saturating_sub_i64,
}
use exa_postgres_interface.Base.Text.{Text, codes}
use exa_postgres_interface.Crates.{Crates}
use exa_postgres_interface.Batches.{total_rows, slice_batches, reverse_slice_batches}
use exa_postgres_interface.Policy.Plan.{CursorDirection}

abbrev pub TextRow : Type 0
TextRow = List (Option Text)

module _ (k : Crates) where
  pub record ExasolColumn : Type 0 where
    pub name : Text
    pub data_type : k.Value

  pub data CursorData : Type 0 where
    arrow : k.Schema → List k.RecordBatch → CursorData
    typed : List ExasolColumn → List TextRow → CursorData

  pub data CursorStepRows : Type 0 where
    arrow : List k.RecordBatch → CursorStepRows
    typed : List TextRow → CursorStepRows

  pub data CursorMetadata : Type 0 where
    arrow : k.Schema → CursorMetadata
    typed : List ExasolColumn → CursorMetadata

  pub record GatewayCursor : Type 0 where
    pub contents : CursorData
    pub position : ℤ
    pub scroll : Bool
    pub hold : Bool

  pub record CursorStep : Type 0 where
    pub rows : CursorStepRows
    pub count : ℕ

pub pg_error : Text → Text → PgError
pg_error code message = record { sqlstate = code; message = message }

unfoldable pub direction_requires_scroll : CursorDirection → Bool
direction_requires_scroll CursorDirection.prior = true
direction_requires_scroll CursorDirection.first = true
direction_requires_scroll CursorDirection.last = true
direction_requires_scroll (CursorDirection.absolute _) = true
direction_requires_scroll (CursorDirection.relative _) = true
direction_requires_scroll (CursorDirection.backward _) = true
direction_requires_scroll (CursorDirection.count n) = ltb_ℤ n (pos 0)
direction_requires_scroll CursorDirection.next = false
direction_requires_scroll CursorDirection.all = false
direction_requires_scroll (CursorDirection.forward _) = false

-- How many rows a movement takes: no more than are left.
unfoldable pub forward_requested : ℤ → ℤ → ℤ → ℤ
forward_requested count len start = min_ℤ count (saturating_sub_i64 len start)

unfoldable pub backward_requested : ℤ → ℤ → ℤ
backward_requested count start = min_ℤ count (add_i64 start (pos 1))

module _ {k : Crates} where
  unfoldable pub empty_like : CursorData k → CursorStepRows k
  empty_like (CursorData.arrow _ _) = CursorStepRows.arrow []
  empty_like (CursorData.typed _ _) = CursorStepRows.typed []

  unfoldable pub data_row_count : CursorData k → ℕ
  data_row_count (CursorData.arrow _ batches) = total_rows k batches
  data_row_count (CursorData.typed _ rows) = length rows

  unfoldable pub step_rows_count : CursorStepRows k → ℕ
  step_rows_count (CursorStepRows.arrow batches) = total_rows k batches
  step_rows_count (CursorStepRows.typed rows) = length rows

  unfoldable pub metadata : CursorData k → CursorMetadata k
  metadata (CursorData.arrow schema _) = CursorMetadata.arrow schema
  metadata (CursorData.typed columns _) = CursorMetadata.typed columns

  -- The source's `len` of the result set as an `isize`.
  unfoldable pub row_len : CursorData k → Result ℤ
  unfolding data_row_count pg_error
  row_len d =
      if ltb (data_row_count d) (2 ^ 63)
      then ok (pos (data_row_count d))
      else err (pg_error (codes "54000") (codes "cursor result set is too large"))

  unfoldable pub slice_step_rows : CursorData k → ℕ → ℕ → CursorStepRows k
  slice_step_rows (CursorData.arrow _ batches) start end =
      CursorStepRows.arrow (slice_batches k batches start end)
  slice_step_rows (CursorData.typed _ rows) start end = CursorStepRows.typed (
      if leb end start || leb (length rows) start
      then []
      else take (min end (length rows) - start) (drop start rows))

  unfoldable pub reverse_slice_step_rows : CursorData k → ℕ → ℕ → CursorStepRows k
  reverse_slice_step_rows (CursorData.arrow _ batches) start end =
      CursorStepRows.arrow (reverse_slice_batches k batches start end)
  reverse_slice_step_rows (CursorData.typed _ rows) start end =
      let upper = min end (length rows) in
      CursorStepRows.typed
        (if leb upper start then [] else reverse (take (upper - start) (drop start rows)))

  unfoldable pub current_row_step_rows : GatewayCursor k → CursorStepRows k
  unfolding slice_step_rows data_row_count empty_like
  current_row_step_rows c =
      let at = as_usize c.position in
      if leb_ℤ (pos 0) c.position && ltb_ℤ c.position (pos (data_row_count c.contents))
      then slice_step_rows c.contents at (at + 1)
      else empty_like c.contents

  abbrev seek_to : GatewayCursor k → ℤ → GatewayCursor k
  seek_to c p = record c { position = p }

  abbrev step : CursorStepRows k → ℕ → CursorStep k
  step rows count = record { rows = rows; count = count }

  -- A count of 0 in `forward` and `backward`: the current row again, and no movement.
  unfoldable pub stay : GatewayCursor k → Bool → GatewayCursor k × CursorStep k
  unfolding current_row_step_rows step_rows_count empty_like
  stay c return_rows =
      let rows = if return_rows then current_row_step_rows c else empty_like c.contents in
      (c, step rows (if return_rows then step_rows_count rows else 0))

  -- The row behind the position, where a forward movement begins.
  unfoldable pub forward_start : GatewayCursor k → ℤ → ℤ
  forward_start c len = clamp (add_i64 c.position (pos 1)) (pos 0) len

  -- `forward` with a count that is not negative.
  unfoldable pub forward_count : GatewayCursor k → ℤ → ℤ → Bool → GatewayCursor k × CursorStep k
  unfolding stay slice_step_rows empty_like
  forward_count c len count return_rows =
      let start = forward_start c len in
      let requested = forward_requested count len start in
      let end = add_i64 start requested in
      if eq_ℤ count (pos 0)
      then stay c return_rows
      else if leb_ℤ len start
      then (seek_to c len, step (empty_like c.contents) 0)
      else (
        seek_to c (if ltb_ℤ requested count then len else sub_i64 end (pos 1)),
        step
            (if return_rows
              then slice_step_rows c.contents (as_usize start) (as_usize end)
              else empty_like c.contents)
            (as_usize requested),
      )

  unfoldable pub forward_all : GatewayCursor k → ℤ → Bool → GatewayCursor k × CursorStep k
  unfolding slice_step_rows empty_like
  forward_all c len return_rows =
      let start = forward_start c len in
      (
        seek_to c len,
        step
            (if return_rows && ltb_ℤ start len
              then slice_step_rows c.contents (as_usize start) (as_usize len)
              else empty_like c.contents)
            (as_usize (saturating_sub_i64 len start)),
      )

  -- The row before the position, where a backward movement begins.
  unfoldable pub backward_start : GatewayCursor k → ℤ → ℤ
  backward_start c len =
      if leb_ℤ len c.position then sub_i64 len (pos 1) else sub_i64 c.position (pos 1)

  unfoldable pub backward_count : GatewayCursor k → ℤ → ℤ → Bool → GatewayCursor k × CursorStep k
  unfolding stay reverse_slice_step_rows empty_like
  backward_count c len count return_rows =
      let start = backward_start c len in
      let requested = backward_requested count start in
      let end = add_i64 (sub_i64 start requested) (pos 1) in
      if eq_ℤ count (pos 0)
      then stay c return_rows
      else if ltb_ℤ start (pos 0)
      then (seek_to c (negsuc 0), step (empty_like c.contents) 0)
      else (
        seek_to c (if ltb_ℤ requested count then negsuc 0 else end),
        step
            (if return_rows
              then reverse_slice_step_rows c.contents (as_usize end)
                  (as_usize (add_i64 start (pos 1)))
              else empty_like c.contents)
            (as_usize requested),
      )

  unfoldable pub backward_all : GatewayCursor k → ℤ → Bool → GatewayCursor k × CursorStep k
  unfolding reverse_slice_step_rows empty_like
  backward_all c len return_rows =
      let start = backward_start c len in
      if ltb_ℤ start (pos 0) then (seek_to c (negsuc 0), step (empty_like c.contents) 0) else (
        seek_to c (negsuc 0),
        step
            (if return_rows
              then reverse_slice_step_rows c.contents 0 (as_usize (add_i64 start (pos 1)))
              else empty_like c.contents)
            (as_usize (add_i64 start (pos 1))),
      )

  unfoldable pub seek : GatewayCursor k → ℤ → ℤ → Bool → GatewayCursor k × CursorStep k
  unfolding slice_step_rows empty_like
  seek c len target return_rows =
      if ltb_ℤ target (pos 0)
      then (seek_to c (negsuc 0), step (empty_like c.contents) 0)
      else if leb_ℤ len target
      then (seek_to c len, step (empty_like c.contents) 0)
      else (
        seek_to c target,
        step
            (if return_rows
              then slice_step_rows c.contents (as_usize target) (as_usize target + 1)
              else empty_like c.contents)
            1,
      )

  unfoldable pub absolute : GatewayCursor k → ℤ → ℤ → Bool → GatewayCursor k × CursorStep k
  unfolding empty_like
  absolute c len target return_rows =
      if eq_ℤ target (pos 0)
      then (seek_to c (negsuc 0), step (empty_like c.contents) 0)
      else seek c len (if ltb_ℤ (pos 0) target then sub_i64 target (pos 1) else add_i64 len target)
          return_rows

  unfoldable pub relative : GatewayCursor k → ℤ → ℤ → Bool → GatewayCursor k × CursorStep k
  relative c len offset return_rows = seek c len (add_i64 c.position offset) return_rows
