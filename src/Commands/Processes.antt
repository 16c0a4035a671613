-- ===== src/Commands/Processes.antt =====
-- generic/dtrace.c: Grab and Launch, and the vector of grabbed processes that both grow.
use tcldtrace.Prelude.{
  ℕ, ◌+◌, ◌-◌, ◌*◌, ◌%◌, ◌^◌, Option, none, some, List, ◌++◌, Bytes, ℤ, pos, negsuc, text, ltb, leb,
  ◌==◌, if◌then◌else◌, length, drop, take, replicate, set, map,
}
use tcldtrace.State.{
  Obj, str, parsed, refused, Code, tcl_ok, HandleData, M, pure, ◌>>=◌, ◌>>◌, arg, load, store,
  handle_of, set_result, undefined,
}
use tcldtrace.Api.{Env, lib}
use tcldtrace.Helpers.Registry.{get_hd}
use tcldtrace.Helpers.Checks.{fail_with, objc_check, handle_check, lib_error, error_class}

-- `ckrealloc` of a vector to `n` cells
unfoldable pub resize : ℕ → List (Option ℕ) → List (Option ℕ)
resize n cells = take n (cells ++ replicate n none)

-- `if (hd->proc_count == hd->proc_capacity) { … }`
unfoldable pub grow : HandleData → HandleData
unfolding resize
grow hd =
    let capacity = 2 * hd.proc_capacity + 1 in
    if hd.proc_count == hd.proc_capacity
    then record hd { proc_capacity = capacity; processes = resize capacity hd.processes }
    else hd

-- The cell and the count, on the vector as it is then; `none` for a write outside it.
unfoldable pub push_process : HandleData → ℕ → Option HandleData
push_process hd proc =
    if ltb hd.proc_count (length hd.processes)
    then some (record hd {
      processes = set hd.processes hd.proc_count (some proc);
      proc_count = hd.proc_count + 1;
    })
    else none

-- `pid = lpid`, from `long` to a 32-bit `pid_t`
abbrev pub signed32 : ℕ → ℤ
signed32 r = if ltb r (2 ^ 31) then pos r else negsuc (2 ^ 32 - 1 - r)

unfoldable pub to_pid : ℤ → ℤ
to_pid (pos n) = signed32 (n % 2 ^ 32)
to_pid (negsuc n) = signed32 (2 ^ 32 - 1 - n % 2 ^ 32)

module _ {D : Type 0} (env : Env D) where
  -- The vector with the process, written back.
  unfoldable pub store_process : ℕ → Option HandleData → M D Code
  store_process a none = undefined
  store_process a (some hd) = do store a hd; pure tcl_ok

  -- The ends of `Grab` and `Launch`, which are the same text.
  unfoldable pub record_process : Bytes → ℕ → Option ℕ → M D Code
  unfolding store_process
  record_process command a none = lib_error env command a
  record_process command a (some proc) = do
    hd ← load a
    store_process a (push_process (grow hd) proc)

  unfoldable pub grab_handle : Bytes → List Obj → ℕ → M D Code
  unfolding record_process to_pid
  grab_handle command objv a = do
    pid_of ← arg objv 2
    elim (env.get_long pid_of) [
      | refused message ↦ do
        set_result (str message)
        fail_with env (text "\n" ++ (command ++ text " bad pid")) (error_class (text "USAGE"))
      | parsed lpid ↦ do
        h ← handle_of a
        proc ← lib (env.dtrace_proc_grab h (to_pid lpid))
        record_process command a proc
    ]

  unfoldable pub grab : List Obj → M D Code
  unfolding grab_handle
  grab objv = objc_check env objv (text "handle pid") (length objv == 3) do
    name ← arg objv 0
    toid ← arg objv 1
    found ← get_hd env toid
    handle_check env name.str found (grab_handle name.str objv)

  -- The vector `argv` of the new process: the arguments from the second on.
  unfoldable pub launch_handle : Bytes → List Obj → ℕ → M D Code
  unfolding record_process
  launch_handle command objv a = do
    h ← handle_of a
    proc ← lib (env.dtrace_proc_create h (map (λ o. o.str) (drop 2 objv)))
    record_process command a proc

  unfoldable pub launch : List Obj → M D Code
  unfolding launch_handle
  launch objv = objc_check env objv (text "handle cmd") (leb 3 (length objv)) do
    name ← arg objv 0
    toid ← arg objv 1
    found ← get_hd env toid
    handle_check env name.str found (launch_handle name.str objv)
