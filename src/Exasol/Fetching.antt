-- ===== src/Exasol/Fetching.antt =====
-- The rows that the JSON transport puts together.
use exa_postgres_interface.Base.{
  ℕ, zero, suc, ◌+◌, ◌-◌, ◌≤◌, ◌<◌, ltb, Bool-cases, inl, inr, List, ◌++◌, Option, none, some,
  length, take, drop, take-add, take_of_length-le, ltb→lt, lt→ltb, ◌≡◌, refl, sym, ap, ◌∙◌, arith,
}
use exa_postgres_interface.Cursor.{TextRow}
use exa_postgres_interface.Exasol.{ExasolResult}
use exa_postgres_interface.Exasol.Json.{Json}
use exa_postgres_interface.Exasol.WebSocket.{chunk_rows, fetch_loop}

module _ {ℓ} {Value : Type 0} {W : Type ℓ} (j : Json Value)
    (fetch : ℕ → W → Option (W × ExasolResult Value)) where
  -- The answer holds the rows that the server says it holds, some of those from `position` on.
  pub record ServesFrom (all : List TextRow) (position : ℕ)
      (answer : Option (W × ExasolResult Value)) : Type ℓ where
    pub world : W
    pub ret : Value
    pub count : ℕ
    pub answered : answer ≡ some (world, ExasolResult.ok ret)
    pub some_rows : 0 < count
    pub within : position + count ≤ length all
    pub holds : chunk_rows j ret ≡ ExasolResult.ok (take count (drop position all), count)

  -- If the server answers each fetch from a position in the result set with the next rows, one at
  -- least, then as many rounds as there are rows left, and one, are enough, and the loop ends with
  -- all the rows in their order, each once.
  pub fetch_loop-all :
      (all : List TextRow)
      → ((position : ℕ) (w : W)
          → position < length all
          → ServesFrom all position (fetch position w))
      → (fuel position : ℕ) (w : W) → position ≤ length all
      → length all - position < fuel
      → (w' : W) × (fetch_loop j fetch fuel (length all) position (take position all) w
          ≡ some (w', ExasolResult.ok all))
  unfolding fetch_loop
  fetch_loop-all all serves zero position w h f = absurd (omega arith)
  fetch_loop-all all serves (suc fuel) position w h f =
      elim (Bool-cases (ltb position (length all))) [
        | inr done ↦ (
          w,
          rw (done, fetch_loop)
              (ap (λ rows. some (w, ExasolResult.ok rows))
                (take_of_length-le position all (ground arith))),
        )
        | inl more ↦
            let s = serves position w (ground arith) in
            let (w', e) = fetch_loop-all all serves fuel (position + s.count) s.world s.within (
              let g : length all - (position + s.count) < fuel =
                omega (arith, ltb→lt position (length all) more, s.some_rows) in
              g) in
            (
              w',
              rw (more, fetch_loop)
                  (rw s.answered (
                    rw s.holds (
                      ap
                        (λ rows.
                          fetch_loop j fetch fuel (length all) (position + s.count) rows s.world)
                        (sym (take-add position s.count all))
                      ∙ e))),
            )
      ]

  -- An answer with a chunk that counts no rows.
  pub record CountsNone (answer : Option (W × ExasolResult Value)) : Type ℓ where
    pub world : W
    pub ret : Value
    pub rows : List TextRow
    pub answered : answer ≡ some (world, ExasolResult.ok ret)
    pub holds : chunk_rows j ret ≡ ExasolResult.ok (rows, 0)

  -- If the server counts no rows in its answers while some are missing, the loop never ends.
  pub fetch_loop-none :
      ((position : ℕ) (w : W) → CountsNone (fetch position w))
      → (fuel total position : ℕ) (rows : List TextRow) (w : W) → position < total
      → fetch_loop j fetch fuel total position rows w ≡ none
  unfolding fetch_loop
  fetch_loop-none counts zero total position rows w h = refl
  fetch_loop-none counts (suc fuel) total position rows w h =
      let c = counts position w in
      rw (lt→ltb position total h, fetch_loop)
        (rw c.answered (
          rw c.holds (
            fetch_loop-none counts fuel total (position + 0) (rows ++ c.rows) c.world
              (omega arith))))
