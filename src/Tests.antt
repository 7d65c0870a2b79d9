-- ===== src/Tests.antt =====
-- A concrete instance of the crates and a database, tests of the definitions on it, and instances of
-- the theorems.
mod Gateway
mod Transport
mod Translation
mod Programs
mod Policy
use exa_postgres_interface.Policy.Quoting.Several.{parse_search_path_value-first}
use exa_postgres_interface.Cursor.View.{step_view}
use exa_postgres_interface.Cursor.Agree.{fetch-move}
use exa_postgres_interface.Session.SearchPath.{shown_after, show_search_path-set_search_path}
use exa_postgres_interface.Session.Statements.{set_search_path, show_search_path, execute_plan}
use exa_postgres_interface.Session.Cursors.{outcome_data, execute_cursor_plan}
use exa_postgres_interface.Session.Frame.{IsSameAfter, execute_cursor_plan-IsSameAfter}
use exa_postgres_interface.Policy.Plan.{CursorClose, CursorDirection, CursorPlan, StatementPlan}
use exa_postgres_interface.Base.{
  ℕ, suc, true, false, List, [], ◌∷◌, ◌++◌, reverse, none, some, ok, length, take, drop, All, ◌≡◌,
  refl, arith, Bool-cases, inl, inr,
}
use exa_postgres_interface.Base.Int.{add_i64, sub_i64, saturating_sub_i64, pos, negsuc, i64_min}
use exa_postgres_interface.Base.Maps.{new, insert}
use exa_postgres_interface.Base.Text.{trim, Text, text_eq, codes}
use exa_postgres_interface.Crates.{Crates, CratesLaws, gather}
use exa_postgres_interface.Batches.{slice_batches, reverse_slice_batches}
use exa_postgres_interface.Batches.Rows.{
  batch_rows, batch_rows-slice_batches, batch_rows-reverse_slice_batches,
}
use exa_postgres_interface.Policy.Regexes.{Regexes}
use exa_postgres_interface.Policy.SearchPath.{
  top_level_comma, SearchPathTarget, parse_search_path_value,
}
use exa_postgres_interface.Policy.Quoting.{quoted, parse_search_path_value-quoted}
use exa_postgres_interface.Cursor.{
  row_len, forward_count, forward_all, backward_all, forward_start, backward_start,
  forward_requested, GatewayCursor, CursorStep, CursorData, CursorStepRows, data_row_count,
  direction_requires_scroll,
}
use exa_postgres_interface.Cursor.Apply.{apply, forward, backward}
use exa_postgres_interface.Cursor.Spec.{spec_move}
use exa_postgres_interface.Cursor.Movements.{IsValid, slot_of}
use exa_postgres_interface.Cursor.Refine.{Implements}
use exa_postgres_interface.Cursor.Correct.{apply-Implements}
use exa_postgres_interface.Cursor.Invariant.{apply-IsValid}
use exa_postgres_interface.Cursor.Overflow.{apply_min}
use exa_postgres_interface.Session.{ExasolOutcome, Database, Translator, SessionState, Client}
use exa_postgres_interface.Session.Simple.{split_from, split_simple_query, sql_string_literal}
use exa_postgres_interface.Session.Literals.{read_literal, read_literal-sql_string_literal}
use exa_postgres_interface.Session.Splitting.{IsStatement, split_from-sql_string_literal}
use exa_postgres_interface.Session.Valid.{
  Fits, IsValidSession, IsValidAfter, execute_plan-IsValidAfter,
}

abbrev lists : Crates
lists = record {
  Value = ℕ;
  Schema = ℕ;
  empty_schema = 0;
  RecordBatch = List ℕ;
  schema = λ b. 1;
  num_rows = length;
  slice = λ b offset n. take n (drop offset b);
  take_rows = gather;
}

abbrev lists_laws : CratesLaws lists
lists_laws = record {
  Row = ℕ;
  rows = λ b. b;
  length_rows = λ b. refl;
  rows_slice = λ b offset n h. refl;
  rows_take_rows = λ b indices h. refl;
}

abbrev batches : List (List ℕ)
batches = (10 ∷ 20 ∷ []) ∷ (30 ∷ []) ∷ []

abbrev cursor : GatewayCursor lists
cursor = record {
  contents = CursorData.arrow 1 batches;
  position = pos 0;
  scroll = true;
  hold = false;
}

cursor-IsValid : IsValid cursor
unfolding data_row_count
cursor-IsValid = record {
  lower = omega arith;
  upper = omega arith;
  fits = omega arith;
  counted = (omega arith, (omega arith, tt));
}

forward_two :
    apply 3 cursor (CursorDirection.forward (some (pos 2))) true
    ≡ some (
        ok (
          record cursor { position = pos 2 },
          record { rows = CursorStepRows.arrow ((20 ∷ []) ∷ (30 ∷ []) ∷ []); count = 2 },
        ))
unfolding apply forward backward row_len forward_count forward_all backward_all forward_start
    backward_start forward_requested add_i64 sub_i64 saturating_sub_i64 slice_batches
forward_two = refl

back_past :
    apply 3 cursor (CursorDirection.backward none) true
    ≡ some (
        ok (
          record cursor { position = negsuc 0 },
          record { rows = CursorStepRows.arrow []; count = 0 },
        ))
unfolding apply forward backward row_len forward_count forward_all backward_all forward_start
    backward_start forward_requested add_i64 sub_i64 saturating_sub_i64 slice_batches
back_past = refl

apply-Implements_example :
    (r : GatewayCursor lists × CursorStep lists) × (apply 3 cursor
        (CursorDirection.forward (some (pos 2)))
        true
      ≡ some (ok r))
    × Implements lists_laws cursor true
        (spec_move
          (data_row_count cursor.contents)
          (slot_of cursor.position)
          (CursorDirection.forward (some (pos 2))))
        r
unfolding direction_requires_scroll
apply-Implements_example =
    apply-Implements lists_laws cursor (CursorDirection.forward (some (pos 2))) true 1
      cursor-IsValid (omega arith) refl

abbrev past_end : GatewayCursor lists
past_end = record cursor { position = pos 3 }

apply-IsValid_example :
    IsValid past_end
    × (past_end.contents ≡ cursor.contents)
    × (past_end.scroll ≡ cursor.scroll)
    × (past_end.hold ≡ cursor.hold)
unfolding apply forward backward row_len forward_count forward_all backward_all forward_start
    backward_start forward_requested add_i64 sub_i64 saturating_sub_i64 slice_batches
apply-IsValid_example =
    apply-IsValid cursor CursorDirection.all true 2
      (past_end, record { rows = CursorStepRows.arrow ((20 ∷ []) ∷ (30 ∷ []) ∷ []); count = 2 })
      cursor-IsValid refl

apply_min_example : apply 100 cursor (CursorDirection.count i64_min) false ≡ none
apply_min_example = apply_min cursor false 100 cursor-IsValid refl

batch_rows-slice_batches_example :
    batch_rows lists_laws (slice_batches lists batches 1 3) ≡ 20 ∷ 30 ∷ []
batch_rows-slice_batches_example = batch_rows-slice_batches lists_laws batches 1 3

batch_rows-reverse_slice_batches_example :
    batch_rows lists_laws (reverse_slice_batches lists batches 1 3) ≡ 30 ∷ 20 ∷ []
batch_rows-reverse_slice_batches_example =
    batch_rows-reverse_slice_batches lists_laws batches 1 3 (omega arith, (omega arith, tt))

abbrev injection : Text
injection = codes "'; DROP TABLE t; --"

read_literal-sql_string_literal_example :
    read_literal (sql_string_literal injection ++ codes " AND") ≡ some (injection, codes " AND")
read_literal-sql_string_literal_example =
    read_literal-sql_string_literal injection (codes " AND") refl

split_from-sql_string_literal_example :
    split_from [] (codes "=") false false (sql_string_literal injection ++ codes ";SELECT 2")
    ≡ split_from []
        (reverse (sql_string_literal injection) ++ codes "=")
        false
        false
        (codes ";SELECT 2")
split_from-sql_string_literal_example =
    split_from-sql_string_literal [] (codes "=") injection (codes ";SELECT 2") refl

split_two :
    split_simple_query (codes " SELECT ';' ;; SELECT 2 ")
    ≡ codes "SELECT ';'" ∷ codes "SELECT 2" ∷ []
unfolding split_simple_query
split_two = refl

-- The splitter does not know comments: the quote in this one hides a semicolon from it.
split_comment :
    split_simple_query (codes "SELECT 1 -- it's\n; SELECT 2")
    ≡ codes "SELECT 1 -- it's\n; SELECT 2" ∷ []
unfolding split_simple_query
split_comment = refl

parse_search_path_value-quoted_example :
    parse_search_path_value (quoted (codes "a\", b")) ≡ SearchPathTarget.single (codes "a\", b")
parse_search_path_value-quoted_example = parse_search_path_value-quoted (codes "a\", b") refl

-- A database that counts the statements it was sent and answers each with the same rows.
abbrev counting : Database lists
counting = record {
  World = ℕ;
  execute = λ world sql. (suc world, ok (ExasolOutcome.arrow_rows batches));
}

counting-Fits : Fits counting
unfolding data_row_count outcome_data
counting-Fits world sql = (omega arith, (omega arith, (omega arith, tt)))

abbrev session : SessionState counting
session = record {
  exasol = 0;
  extended_results = new;
  cursors = insert (codes "c") cursor new;
  current_schema = none;
}

abbrev client : Client counting
client = record { pid = 7; session = some session }

client-IsValid : IsValidSession client.session
unfolding insert
client-IsValid name = elim (Bool-cases (text_eq name (codes "c"))) [
  | inl same ↦ rw (same, insert) cursor-IsValid
  | inr other ↦ rw (other, insert) tt
]

abbrev no_regexes : Regexes
no_regexes = record {
  is_match = λ pattern text. false;
  captures = λ pattern text. none;
  replace_all = λ pattern text by. text;
  matches = λ pattern text. ([], text);
  escape = λ text. text;
}

abbrev identity : Translator
identity = record {
  enabled = false;
  is_passthrough_query = λ sql. true;
  translate_postgres_to_exasol = λ sql. ok sql;
}

abbrev fetch_all : StatementPlan
fetch_all =
    StatementPlan.cursor
      (CursorPlan.fetch (record { name = codes "c"; direction = CursorDirection.all }))

execute_plan-IsValidAfter_example :
    IsValidAfter (execute_plan 2 no_regexes identity client (codes "FETCH ALL c") fetch_all)
execute_plan-IsValidAfter_example =
    execute_plan-IsValidAfter 2 no_regexes identity client (codes "FETCH ALL c") fetch_all
      counting-Fits client-IsValid

fetch-move_example :
    (fetched : GatewayCursor lists × CursorStep lists) × (moved : GatewayCursor lists
      × CursorStep lists)
    × (apply 3 cursor CursorDirection.prior true ≡ some (ok fetched))
    × (apply 3 cursor CursorDirection.prior false ≡ some (ok moved))
    × (fetched.0 ≡ moved.0)
    × (moved.1.count ≡ fetched.1.count)
    × (step_view lists_laws moved.1.rows ≡ [])
unfolding direction_requires_scroll
fetch-move_example = fetch-move lists_laws cursor CursorDirection.prior 1 cursor-IsValid tt refl

show_search_path-set_search_path_example :
    (show_search_path (set_search_path session (codes "S")).0).1
    ≡ shown_after session (codes "S") (ok (ExasolOutcome.arrow_rows batches))
show_search_path-set_search_path_example = show_search_path-set_search_path session (codes "S")

execute_cursor_plan-IsSameAfter_example : IsSameAfter (codes "c") client.session (
    execute_cursor_plan 2 no_regexes identity client
      (CursorPlan.close (CursorClose.one (codes "d"))))
execute_cursor_plan-IsSameAfter_example =
    execute_cursor_plan-IsSameAfter 2 no_regexes identity client
      (CursorPlan.close (CursorClose.one (codes "d"))) (codes "c") refl

parse_search_path_value-first_example :
    parse_search_path_value (quoted (codes "a,b") ++ b',' ∷ codes " c")
    ≡ SearchPathTarget.single (codes "a,b")
parse_search_path_value-first_example =
    parse_search_path_value-first (codes "a,b") (codes " c") refl
