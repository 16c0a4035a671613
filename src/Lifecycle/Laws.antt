-- ===== src/Lifecycle/Laws.antt =====
-- What the loading and the unloading of the extension come to.
use tcldtrace.Prelude.{
  ℕ, ◌≤◌, ◌≡◌, refl, ◌⊎◌, ◌↔◌, true, some, ◌∷◌, Bytes, arith, text, Dict, lookup, lookup-erase_self,
  bytes_eq,
}
use tcldtrace.State.{HandleData, World, fault}
use tcldtrace.Api.{Env}
use tcldtrace.Commands.Dispatch.{Command}
use tcldtrace.Lifecycle.Init.{command_table, command_name, has_ensembles, find_command}
use tcldtrace.Lifecycle.DeInit.{free_hd, close_handles, dtrace_deinit}

-- The word by which a script calls a command.
pub word : Command → Bytes
unfolding text
word Command.opens = text "open"
word Command.closes = text "close"
word Command.configures = text "configure"
word Command.compiles = text "compile"
word Command.execs = text "exec"
word Command.infos = text "info"
word Command.goes = text "go"
word Command.stops = text "stop"
word Command.processes = text "process"
word Command.lists = text "list"
word Command.aggregates = text "aggregations"
word Command.grabs = text "grab"
word Command.launches = text "launch"

-- In the table of the extension, the name made of its namespace and the word of a command finds that
-- command.
pub find_command-command_table :
    (c : Command) → find_command (command_name (word c)) command_table ≡ some c
unfolding find_command command_table word bytes_eq text
find_command-command_table Command.opens = refl
find_command-command_table Command.closes = refl
find_command-command_table Command.configures = refl
find_command-command_table Command.compiles = refl
find_command-command_table Command.execs = refl
find_command-command_table Command.infos = refl
find_command-command_table Command.goes = refl
find_command-command_table Command.stops = refl
find_command-command_table Command.processes = refl
find_command-command_table Command.lists = refl
find_command-command_table Command.aggregates = refl
find_command-command_table Command.grabs = refl
find_command-command_table Command.launches = refl

-- A version of Tcl that has ensembles: 8.5 or later.
abbrev pub IsRecent : ℕ → ℕ → Type 0
IsRecent major minor = (9 ≤ major) ⊎ ((major ≡ 8) × (5 ≤ minor))

-- A version of Tcl gets the ensemble exactly if it is 8.5 or later and its minor number is at least
-- 5 besides.
has_ensembles-IsRecent :
    (major minor : ℕ) → (has_ensembles major minor ≡ true) ↔ (IsRecent major minor × (5 ≤ minor))
unfolding has_ensembles
has_ensembles-IsRecent major minor = (λ h. ground arith, λ h. ground arith)

module _ {D : Type 0} (env : Env D) where
  -- While the first handle of the table is open, the cleanup is undefined: it reads the structure
  -- that it has just freed.
  pub dtrace_deinit-fault :
      (id a h : ℕ) (hd : HandleData) (rest : Dict ℕ) (w : World D)
      → w.handles ≡ (id, a) ∷ rest
      → lookup a w.heap ≡ some hd
      → hd.handle ≡ some h
      → dtrace_deinit env w ≡ fault
  unfolding dtrace_deinit close_handles free_hd
  dtrace_deinit-fault id a h hd rest w e l l' =
      rw (e, dtrace_deinit)
        (rw (l, close_handles)
          (rw (l', close_handles)
            (rw (l, free_hd) (rw (lookup-erase_self a w.heap, close_handles) refl))))
