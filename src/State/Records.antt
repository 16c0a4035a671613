-- ===== src/State/Records.antt =====
-- The structures of generic/dtrace.h, and the state that the commands work on.
use tcldtrace.Prelude.{ℕ, List, [], Option, none, ℤ, pos, Bool, false, Bytes, Dict}
use tcldtrace.State.Objects.{Obj, Value}

-- `aggregation_data`: the tuple under construction, `NULL` between two rows, and the list. `none` for
-- the list is a pointer that must not be followed: `NULL`, from `memset` on, or one to an object that
-- was handed over as the interpreter's result, to which the structure has no reference.
pub record AggregationData : Type 0 where
  pub tuple : Option (List Value)
  pub list : Option (List Value)

-- `handle_data`. A libdtrace handle and a process are the numbers that libdtrace knows them by. The
-- vector `processes` has a cell for each unit of its capacity, `none` until it is written. `interp`
-- is whether the pointer to the interpreter has been stored. `callbacks` and `args` are the two
-- arrays, as functions of the index.
pub record HandleData : Type 0 where
  pub handle : Option ℕ
  pub foldpdesc : ℤ
  pub interp : Bool
  pub agg : AggregationData
  pub processes : List (Option ℕ)
  pub proc_count : ℕ
  pub proc_capacity : ℕ
  pub callbacks : ℕ → Option Obj
  pub args : ℕ → Option Obj

-- `program_data`: the compiled program, and the address of the `handle_data` that it belongs to.
pub record ProgramData : Type 0 where
  pub compiled : ℕ
  pub hd : ℕ

-- `list_arg`
pub record ListArg : Type 0 where
  pub last : Option ℕ
  pub hd : ℕ
  pub proc : Obj
  pub args : Obj

-- One interpreter with the extension loaded. `handles` and `programs` are the hash tables of
-- `dtrace_data`, `heap` the live `handle_data` structures by address, `refs` the reference counts
-- of the objects handed over, `background` the error reports of callbacks, and `lib` the state of
-- libdtrace and the kernel, of which nothing is known.
pub record World (D : Type 0) : Type 0 where
  pub handles : Dict ℕ
  pub programs : Dict ProgramData
  pub heap : Dict HandleData
  pub next_free_id : ℕ
  pub next_free_pid : ℕ
  pub result : Value
  pub error_code : List Bytes
  pub background : List Bytes
  pub refs : ℕ → ℕ
  pub lib : D

-- What `memset(hd, 0, sizeof(handle_data))` leaves.
abbrev pub zeroed : HandleData
zeroed = record {
  handle = none;
  foldpdesc = pos 0;
  interp = false;
  agg = record { tuple = none; list = none };
  processes = [];
  proc_count = 0;
  proc_capacity = 0;
  callbacks = λ i. none;
  args = λ i. none;
}
