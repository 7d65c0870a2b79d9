-- ===== src/Cursor/Spec.antt =====
-- The abstract cursor. A result set of n rows has n + 2 slots: 0 before the first row, k on the k-th
-- row, n + 1 behind the last. A movement leads to a slot and passes over a run of rows.
use exa_postgres_interface.Base.{
  ℕ, zero, suc, ◌+◌, ◌-◌, min, Bool, true, false, none, some, List, reverse, leb, if◌then◌else◌,
  take, drop,
}
use exa_postgres_interface.Base.Int.{pos, negsuc}
use exa_postgres_interface.Policy.Plan.{CursorDirection}

-- The run: `moved` rows from the index `from` on, backwards if `reversed`.
pub record Span : Type 0 where
  pub slot : ℕ
  pub from : ℕ
  pub moved : ℕ
  pub reversed : Bool
  -- whether the position was to change, which a count of 0 does not ask for
  pub moves : Bool

abbrev pub span_rows {ℓ} : {A : Type ℓ} → Span → List A → List A
span_rows s rows =
    let run = take s.moved (drop s.from rows) in if s.reversed then reverse run else run

abbrev span : ℕ → ℕ → ℕ → Bool → Span
span slot from moved reversed = record {
  slot = slot;
  from = from;
  moved = moved;
  reversed = reversed;
  moves = true;
}

-- The row at a slot, if the slot is on one.
abbrev on_row : ℕ → ℕ → ℕ
on_row n slot = if leb 1 slot then (if leb slot n then 1 else 0) else 0

abbrev pub ahead : ℕ → ℕ → ℕ → Span
ahead n p zero = record (span p (p - 1) (on_row n p) false) { moves = false }
ahead n p (suc k) = span (min (p + suc k) (n + 1)) p (min (suc k) (n - p)) false

abbrev pub back : ℕ → ℕ → ℕ → Span
back n p zero = record (span p (p - 1) (on_row n p) false) { moves = false }
back n p (suc k) = let moved = min (suc k) (p - 1) in span (p - suc k) (p - 1 - moved) moved true

abbrev pub goto : ℕ → ℕ → Span
goto n slot = let at = min slot (n + 1) in span at (at - 1) (on_row n at) false

abbrev pub spec_move : ℕ → ℕ → CursorDirection → Span
spec_move n p CursorDirection.next = ahead n p 1
spec_move n p CursorDirection.prior = back n p 1
spec_move n p CursorDirection.first = goto n 1
spec_move n p CursorDirection.last = goto n n
spec_move n p CursorDirection.all = ahead n p (suc n)
spec_move n p (CursorDirection.absolute (pos t)) = goto n t
spec_move n p (CursorDirection.absolute (negsuc t)) = goto n (n - t)
spec_move n p (CursorDirection.relative (pos t)) = goto n (p + t)
spec_move n p (CursorDirection.relative (negsuc t)) = goto n (p - suc t)
spec_move n p (CursorDirection.count (pos t)) = ahead n p t
spec_move n p (CursorDirection.count (negsuc t)) = back n p (suc t)
spec_move n p (CursorDirection.forward none) = ahead n p (suc n)
spec_move n p (CursorDirection.forward (some (pos t))) = ahead n p t
spec_move n p (CursorDirection.forward (some (negsuc t))) = back n p (suc t)
spec_move n p (CursorDirection.backward none) = back n p (suc n)
spec_move n p (CursorDirection.backward (some (pos t))) = back n p t
spec_move n p (CursorDirection.backward (some (negsuc t))) = ahead n p (suc t)
