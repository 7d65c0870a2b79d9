-- ===== src/Policy/Plan.antt =====
-- The plans of src/policy.rs.
use exa_postgres_interface.Base.{Bool, List, Option}
use exa_postgres_interface.Base.Int.{ℤ}
use exa_postgres_interface.Base.Text.{Text}

pub data RowCountPolicy : Type 0 where
  include omit : RowCountPolicy

pub data CursorDirection : Type 0 where
  next prior first last all : CursorDirection
  absolute relative count : ℤ → CursorDirection
  forward backward : Option ℤ → CursorDirection

pub record CursorDeclare : Type 0 where
  pub name : Text
  pub query : Text
  pub scroll : Bool
  pub hold : Bool

pub record CursorPosition : Type 0 where
  pub name : Text
  pub direction : CursorDirection

pub data CursorClose : Type 0 where
  one : Text → CursorClose
  every : CursorClose

pub data CursorPlan : Type 0 where
  declare : CursorDeclare → CursorPlan
  fetch move : CursorPosition → CursorPlan
  close : CursorClose → CursorPlan

pub data StatementPlan : Type 0 where
  execute : Text → RowCountPolicy → StatementPlan
  client_set : StatementPlan
  set_search_path : Text → StatementPlan
  show_search_path : StatementPlan
  client_transaction_start : StatementPlan
  client_transaction_end : Text → StatementPlan
  client_show : Text → Text → StatementPlan
  client_select : List Text → List (List (Option Text)) → StatementPlan
  backend_pid : Text → StatementPlan
  cursor : CursorPlan → StatementPlan
  empty : StatementPlan
  reject : Text → Text → StatementPlan
