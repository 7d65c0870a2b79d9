-- ===== src/Cursor/Overflow.antt =====
-- The smallest count, whose negation wraps around to itself.
use exa_postgres_interface.Base.{ℕ, zero, suc, Bool, true, none, some, ◌≡◌, refl}
use exa_postgres_interface.Base.Int.{neg_i64_min, i64_min}
use exa_postgres_interface.Crates.{Crates}
use exa_postgres_interface.Policy.Plan.{CursorDirection}
use exa_postgres_interface.Cursor.{GatewayCursor, direction_requires_scroll}
use exa_postgres_interface.Cursor.Apply.{forward, backward, move, apply}
use exa_postgres_interface.Cursor.Movements.{IsValid}
use exa_postgres_interface.Cursor.Correct.{row_len_lem}

module _ {k : Crates} (c : GatewayCursor k) (v : IsValid c) (rr : Bool) where
  mutual
    unfolding forward backward

    forward_min : (fuel : ℕ) → forward fuel c (some i64_min) rr ≡ none
    forward_min zero = refl
    forward_min (suc fuel) = rw (row_len_lem c v, forward) (rw neg_i64_min (backward_min fuel))

    backward_min : (fuel : ℕ) → backward fuel c (some i64_min) rr ≡ none
    backward_min zero = refl
    backward_min (suc fuel) = rw (row_len_lem c v, backward) (rw neg_i64_min (forward_min fuel))

-- FETCH and MOVE with the count -2^63 on a cursor that scrolls never return, however long a chain
-- of calls they are given: each of `forward` and `backward` negates the count, which wraps around
-- to itself, and calls the other.
pub apply_min :
    {k : Crates} (c : GatewayCursor k) (rr : Bool) (fuel : ℕ)
    → IsValid c
    → c.scroll ≡ true
    → apply fuel c (CursorDirection.count i64_min) rr ≡ none
unfolding apply move direction_requires_scroll
apply_min c rr fuel v s = rw (s, apply) (rw neg_i64_min (backward_min c v rr fuel))
