-- ===== src/Cursor/Apply.antt =====
-- `GatewayCursor::apply` with `forward` and `backward`, which call one another on a negative count.
-- Each call takes a unit of fuel; `none` is a call chain that did not end within the fuel.
use exa_postgres_interface.Base.{
  ℕ, zero, suc, Bool, true, false, not, ◌&&◌, Option, none, some, Result, ok, err,
}
use exa_postgres_interface.Base.Int.{ℤ, pos, negsuc, ltb_ℤ, neg_i64}
use exa_postgres_interface.Base.Text.{codes}
use exa_postgres_interface.Crates.{Crates}
use exa_postgres_interface.Policy.Plan.{CursorDirection}
use exa_postgres_interface.Cursor.{
  GatewayCursor, CursorStep, pg_error, direction_requires_scroll, row_len, forward_count,
  forward_all, backward_count, backward_all, absolute, relative,
}

abbrev pub Answer : Crates → Type 0
Answer k = Option (Result (GatewayCursor k × CursorStep k))

module _ {k : Crates} where
  unfoldable mutual
    pub forward : ℕ → GatewayCursor k → Option ℤ → Bool → Answer k
    forward zero c count return_rows = none
    forward (suc fuel) c none return_rows = elim (row_len c.contents) [
      | err e ↦ some (err e)
      | ok len ↦ some (ok (forward_all c len return_rows))
    ]
    forward (suc fuel) c (some count) return_rows = elim (row_len c.contents) [
      | err e ↦ some (err e)
      | ok len ↦ elim (ltb_ℤ count (pos 0)) [
        | true ↦ backward fuel c (some (neg_i64 count)) return_rows
        | false ↦ some (ok (forward_count c len count return_rows))
      ]
    ]

    pub backward : ℕ → GatewayCursor k → Option ℤ → Bool → Answer k
    backward zero c count return_rows = none
    backward (suc fuel) c none return_rows = elim (row_len c.contents) [
      | err e ↦ some (err e)
      | ok len ↦ some (ok (backward_all c len return_rows))
    ]
    backward (suc fuel) c (some count) return_rows = elim (row_len c.contents) [
      | err e ↦ some (err e)
      | ok len ↦ elim (ltb_ℤ count (pos 0)) [
        | true ↦ forward fuel c (some (neg_i64 count)) return_rows
        | false ↦ some (ok (backward_count c len count return_rows))
      ]
    ]

  -- `let len = self.len()?` before a movement that cannot recur.
  unfoldable pub with_len : GatewayCursor k → (ℤ → GatewayCursor k × CursorStep k) → Answer k
  with_len c f = elim (row_len c.contents) [ err e ↦ some (err e) | ok len ↦ some (ok (f len)) ]

  -- The `match direction` of `apply`.
  unfoldable pub move : ℕ → GatewayCursor k → CursorDirection → Bool → Answer k
  unfolding with_len
  move fuel c CursorDirection.next return_rows = forward fuel c (some (pos 1)) return_rows
  move fuel c CursorDirection.prior return_rows = backward fuel c (some (pos 1)) return_rows
  move fuel c CursorDirection.first return_rows =
      with_len c (λ len. absolute c len (pos 1) return_rows)
  move fuel c CursorDirection.last return_rows =
      with_len c (λ len. absolute c len (negsuc 0) return_rows)
  move fuel c (CursorDirection.absolute target) return_rows =
      with_len c (λ len. absolute c len target return_rows)
  move fuel c (CursorDirection.relative offset) return_rows =
      with_len c (λ len. relative c len offset return_rows)
  move fuel c (CursorDirection.forward count) return_rows = forward fuel c count return_rows
  move fuel c (CursorDirection.backward count) return_rows = backward fuel c count return_rows
  move fuel c CursorDirection.all return_rows = forward fuel c none return_rows
  move fuel c (CursorDirection.count count) return_rows = elim (ltb_ℤ count (pos 0)) [
    | true ↦ backward fuel c (some (neg_i64 count)) return_rows
    | false ↦ forward fuel c (some count) return_rows
  ]

  unfoldable pub apply : ℕ → GatewayCursor k → CursorDirection → Bool → Answer k
  unfolding move direction_requires_scroll pg_error
  apply fuel c direction return_rows = elim (not c.scroll && direction_requires_scroll direction) [
    | true ↦ some (err (pg_error (codes "0A000") (codes "cursor was declared NO SCROLL")))
    | false ↦ move fuel c direction return_rows
  ]
