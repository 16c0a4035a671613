-- ===== src/Helpers/Registry.antt =====
-- generic/dtrace.c: get_hd, del_hd, new_hd, register_pd and get_pd, over the two hash tables of the
-- interpreter. The tables stand from `Dtrace_Init` on, so the panics on a missing one are left out.
-- A `handle_data` is allocated once for each identifier, and is known by that as its address.
use tcldtrace.Prelude.{
  ℕ, ◌+◌, Option, none, some, [], ◌∷◌, ◌++◌, Bytes, ℤ, pos, negsuc, text, ltb, ◌^◌, ◌-◌,
  if◌then◌else◌, Dict, lookup, insert, erase,
}
use tcldtrace.State.{
  Obj, str, Parsed, parsed, refused, ProgramData, World, zeroed, M, done, panic, fault,
}
use tcldtrace.Api.{Env}

-- The largest `int`; adding one to it is undefined.
abbrev pub int_max : ℕ
int_max = 2 ^ 31 - 1

-- The key `(char*)(intptr_t) id` in a table whose keys are positive.
unfoldable pub find_entry {ℓ} : {A : Type ℓ} → ℤ → Dict A → Option A
find_entry (pos n) d = lookup n d
find_entry (negsuc n) d = none

-- The loop of `del_hd`: frees each program from the search's first entry on.
unfoldable pub free_programs : Dict ProgramData → Dict ProgramData → Dict ProgramData
free_programs [] programs = programs
free_programs ((k, _) ∷ found) programs = free_programs found (erase k programs)

module _ {D : Type 0} where
  -- The two tables' parts of `new_hd`, from the lock on: `none` where the counter overflows.
  unfoldable pub new_hd : M D ℕ
  new_hd w =
      let id = w.next_free_id in
      if ltb id int_max
      then elim (lookup id w.handles) [
        | none ↦ done id (record w {
          next_free_id = id + 1;
          heap = insert id zeroed w.heap;
          handles = insert id id w.handles;
        })
        | some _ ↦ panic (text "dtrace duplicate hash table entry")
      ]
      else fault

  -- `del_hd`, from the number of the identifier on. Freeing what is not allocated is undefined.
  unfoldable pub del_hd : ℕ → M D (Unit {0})
  unfolding free_programs
  del_hd id w = elim (lookup id w.handles) [
    | none ↦ panic (text "dtrace hash entry to be deleted not found")
    | some a ↦ elim (lookup a w.heap) [
      | none ↦ fault
      | some hd ↦ done tt (record w {
        heap = erase a w.heap;
        handles = erase id w.handles;
        programs = free_programs w.programs w.programs;
      })
    ]
  ]

  unfoldable pub register_pd : ℕ → ℕ → M D ℕ
  register_pd a compiled w =
      let id = w.next_free_pid in
      if ltb id int_max
      then elim (lookup id w.programs) [
        | none ↦ done id (record w {
          next_free_pid = id + 1;
          programs = insert id (record { compiled = compiled; hd = a }) w.programs;
        })
        | some _ ↦ panic (text "dtrace duplicate hash table entry")
      ]
      else fault

module _ {D : Type 0} (env : Env D) where
  -- `Tcl_AppendResult`
  abbrev pub append_result : Bytes → M D (Unit {0})
  append_result t w = done tt (record w { result = str (env.get_string w.result ++ t) })

  -- The lookups of `get_hd` and `get_pd` in a table, with what the conversion of the identifier gave.
  -- A message is followed by a newline, before the command's own.
  unfoldable pub find_by {ℓ} : {A : Type ℓ} → Parsed ℤ → Dict A → World D → World D × Option A
  unfolding find_entry
  find_by (refused message) table w =
      (record w { result = str (env.get_string (str message) ++ text "\n") }, none)
  find_by (parsed iid) table w = (w, find_entry iid table)

  unfoldable pub get_hd : Obj → M D (Option ℕ)
  unfolding find_by
  get_hd toid w = let (w', found) = find_by (env.get_int toid) w.handles w in done found w'

  unfoldable pub get_pd : Obj → M D (Option ProgramData)
  unfolding find_by
  get_pd id w = let (w', found) = find_by (env.get_int id) w.programs w in done found w'
