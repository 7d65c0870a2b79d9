-- ===== src/Crates.antt =====
-- What src/pg_server.rs and src/exasol use of the crates `arrow` and `serde_json`. These are not
-- part of the repository: their types and operations are a parameter of the model, and the
-- documented laws of `arrow` that a theorem needs are a record of hypotheses.
use exa_postgres_interface.Base.{
  ℕ, ◌+◌, ◌≤◌, ◌<◌, ◌≡◌, List, [], ◌∷◌, All, length, take, drop, get_elem?, none, some,
}

pub record Crates : Type 1 where
  -- `serde_json::Value`
  pub Value : Type 0
  -- `SchemaRef`, `Schema::empty()`
  pub Schema : Type 0
  pub empty_schema : Schema
  -- `RecordBatch`, its `schema`, `num_rows` and `slice(offset, length)`
  pub RecordBatch : Type 0
  pub schema : RecordBatch → Schema
  pub num_rows : RecordBatch → ℕ
  pub slice : RecordBatch → ℕ → ℕ → RecordBatch
  -- `compute::take` of every column by the same indices, put together by `RecordBatch::try_new`
  pub take_rows : RecordBatch → List ℕ → RecordBatch

-- The rows at the indices, in their order.
abbrev pub gather {ℓ} : {A : Type ℓ} → List A → List ℕ → List A
gather xs [] = []
gather xs (i ∷ is) = elim (get_elem? xs i) [ none ↦ gather xs is | some x ↦ x ∷ gather xs is ]

-- A batch stands for a list of rows, which `slice` cuts and `take` picks from.
pub record CratesLaws (k : Crates) : Type 1 where
  pub Row : Type 0
  pub rows : k.RecordBatch → List Row
  pub length_rows : (b : k.RecordBatch) → length (rows b) ≡ k.num_rows b
  pub rows_slice :
      (b : k.RecordBatch) (offset len : ℕ)
      → offset + len ≤ k.num_rows b
      → rows (k.slice b offset len) ≡ take len (drop offset (rows b))
  pub rows_take_rows :
      (b : k.RecordBatch) (indices : List ℕ)
      → All (λ i. i < k.num_rows b) indices
      → rows (k.take_rows b indices) ≡ gather (rows b) indices
