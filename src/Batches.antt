-- ===== src/Batches.antt =====
-- The batch slices of src/pg_server.rs: `total_rows`, `slice_batches`, `reverse_slice_batches` and
-- `reverse_batch`.
pub mod Rows
use exa_postgres_interface.Base.{
  ℕ, zero, suc, ◌+◌, ◌-◌, ◌%◌, ◌^◌, min, List, [], ◌∷◌, reverse, ltb, leb, ◌==◌, if◌then◌else◌, map,
  true, false,
}
use exa_postgres_interface.Crates.{Crates}

-- `(0..n)`
abbrev pub range : ℕ → ℕ → List ℕ
range from zero = []
range from (suc n) = from ∷ range (suc from) n

module _ (k : Crates) where
  abbrev pub total_rows : List k.RecordBatch → ℕ
  total_rows [] = 0
  total_rows (b ∷ bs) = k.num_rows b + total_rows bs

  -- The loop of `slice_batches` from the batch at `offset` on; `push` comes before the rest.
  pub slice_from : ℕ → ℕ → ℕ → List k.RecordBatch → List k.RecordBatch
  slice_from start end offset [] = []
  slice_from start end offset (b ∷ bs) =
      let len = k.num_rows b in
      let skipped = slice_from start end offset bs in
      let rest = slice_from start end (offset + len) bs in
      let local_start = start - offset in
      let local_end = min (end - offset) len in
      if len == 0
      then skipped
      else if leb (offset + len) start
      then rest
      else if leb end offset
      then []
      else if ltb local_start local_end
      then k.slice b local_start (local_end - local_start) ∷ rest
      else rest

  unfoldable pub slice_batches : List k.RecordBatch → ℕ → ℕ → List k.RecordBatch
  unfolding slice_from
  slice_batches batches start end = if leb end start then [] else slice_from start end 0 batches

  -- `len as u32` keeps the low 32 bits.
  unfoldable pub reverse_batch : k.RecordBatch → k.RecordBatch
  reverse_batch batch =
      let len = k.num_rows batch in
      if leb len 1 then batch else k.take_rows batch (reverse (range 0 (len % 2 ^ 32)))

  unfoldable pub reverse_slice_batches : List k.RecordBatch → ℕ → ℕ → List k.RecordBatch
  unfolding slice_batches reverse_batch
  reverse_slice_batches batches start end =
      map reverse_batch (reverse (slice_batches batches start end))
