-- ===== src/Safety/Steps.antt =====
-- What the commands promise of the two tables, apart from how generic/dtrace.c comes to it: an
-- abstract machine on views, with one step for each outcome of a command.
use tcldtrace.Prelude.{
  ℕ, ◌<◌, ◌≡◌, Bool, true, false, none, some, arith, lookup, insert, lookup-insert, lookup-erase,
}
use tcldtrace.State.{Code, tcl_ok, tcl_error}
use tcldtrace.Commands.Dispatch.{Command}
use tcldtrace.Safety.Scope.{View, added, dropped, registered_for, IsClosed}

-- What scripts can do to the tables, by any number of commands.
pub data Changes (r : View) : View → Type 0 where
  here : Changes r r
  adding : {v : View} → Changes r v → lookup v.next_id v.handles ≡ none → Changes r (added v)
  dropping :
      {v : View} (a : ℕ) → Changes r v → lookup a v.handles ≡ some a → Changes r (dropped a v)
  registering :
      {v : View} (a program : ℕ)
      → Changes r v
      → lookup a v.handles ≡ some a
      → lookup v.next_pid v.programs ≡ none
      → Changes r (registered_for a program v)

pub Changes-IsClosed : (r : View) → IsClosed (Changes r)
Changes-IsClosed r = record {
  adds = λ v f fresh. adding f fresh;
  drops = λ v a f e. dropping a f e;
  registers = λ v a program f e fresh. registering a program f e fresh;
}

-- The commands during which libdtrace calls back, so that scripts run.
abbrev pub calls_back : Command → Bool
calls_back Command.processes = true
calls_back Command.lists = true
calls_back Command.aggregates = true
calls_back Command.opens = false
calls_back Command.closes = false
calls_back Command.configures = false
calls_back Command.compiles = false
calls_back Command.execs = false
calls_back Command.infos = false
calls_back Command.goes = false
calls_back Command.stops = false
calls_back Command.grabs = false
calls_back Command.launches = false

-- The commands that leave the tables alone, whether they succeed or fail.
pub data IsPlain : Command → Type 0 where
  configures : IsPlain Command.configures
  execs : IsPlain Command.execs
  infos : IsPlain Command.infos
  goes : IsPlain Command.goes
  stops : IsPlain Command.stops
  grabs : IsPlain Command.grabs
  launches : IsPlain Command.launches

-- One command, with its completion code. Open that fails after it made the handle takes the handle
-- again, and with it every program. Close and Compile are about a handle that their words name.
pub data Step (Names : ℕ → Type 0) (r : View) : Command → Code → View → Type 0 where
  opened : lookup r.next_id r.handles ≡ none → Step Names r Command.opens tcl_ok (added r)
  refused : Step Names r Command.opens tcl_error r
  reopened :
      lookup r.next_id r.handles ≡ none
      → Step Names r Command.opens tcl_error (dropped r.next_id (added r))
  closed :
      (a : ℕ)
      → Names a
      → lookup a r.handles ≡ some a
      → Step Names r Command.closes tcl_ok (dropped a r)
  kept : Step Names r Command.closes tcl_error r
  compiled :
      (a program : ℕ)
      → Names a
      → lookup a r.handles ≡ some a
      → lookup r.next_pid r.programs ≡ none
      → Step Names r Command.compiles tcl_ok (registered_for a program r)
  rejected : Step Names r Command.compiles tcl_error r
  plain : {command : Command} (code : Code) → IsPlain command → Step Names r command code r
  scripted :
      {command : Command} {v : View} (code : Code)
      → calls_back command ≡ true
      → Changes r v
      → Step Names r command code v

-- A frame that is closed under the changes is kept by every sequence of them, and by every step.
module _ (F : View → Type 0) (closed_frame : IsClosed F) {r : View} (start : F r) where
  pub Changes-frame : (v : View) → Changes r v → F v
  Changes-frame v here = start
  Changes-frame v' (adding {v = v} c fresh) = closed_frame.adds v (Changes-frame v c) fresh
  Changes-frame v' (dropping {v = v} a c e) = closed_frame.drops v a (Changes-frame v c) e
  Changes-frame v' (registering {v = v} a program c e fresh) =
      closed_frame.registers v a program (Changes-frame v c) e fresh

  pub Step-frame :
      {Names : ℕ → Type 0} (command : Command) (code : Code) (v : View)
      → Step Names r command code v
      → F v
  unfolding lookup insert
  Step-frame command code v (opened fresh) = closed_frame.adds r start fresh
  Step-frame command code v refused = start
  Step-frame command code v (reopened fresh) =
      closed_frame.drops (added r) r.next_id (closed_frame.adds r start fresh)
        (ground (arith, lookup-insert r.next_id r.next_id r.next_id r.handles))
  Step-frame command code v (closed a _ e) = closed_frame.drops r a start e
  Step-frame command code v kept = start
  Step-frame command code v (compiled a program _ e fresh) =
      closed_frame.registers r a program start e fresh
  Step-frame command code v rejected = start
  Step-frame command code v (plain code' p) = start
  Step-frame command code v (scripted code' c changes) = Changes-frame v changes

-- A number that was given out and finds no handle.
pub record IsGone (k : ℕ) (v : View) : Type 0 where
  pub given : k < v.next_id
  pub absent : lookup k v.handles ≡ none

pub IsGone-IsClosed : (k : ℕ) → IsClosed (IsGone k)
IsGone-IsClosed k = record {
  adds = λ v g fresh. record {
    given = let h = g.given in omega arith;
    absent =
        let h = g.given in ground (arith, lookup-insert v.next_id k v.next_id v.handles, g.absent);
  };
  drops = λ v a g e. record {
    given = g.given;
    absent = ground (arith, lookup-erase a k v.handles, g.absent);
  };
  registers = λ v a program g e fresh. record { given = g.given; absent = g.absent };
}
