-- ===== src/Footprint/Opening.antt =====
-- Open and Close of generic/dtrace.c: each handle that is opened is owned, and closed once.
use tcldtrace.Prelude.{
  ℕ, ◌+◌, ◌<◌, ◌≡◌, Dict, refl, inl, inr, Bool, true, none, some, Option, List, Bytes, arith,
  lookup, insert, erase, insert-insert, lookup-insert_self, lookup-erase, lookup-insert, ltb, ◌==◌,
  ◌%◌, ◌&&◌, ◌-◌, Bool-cases, Option-cases, length, drop, get_elem?, text, subst,
}
use tcldtrace.State.{Obj, HandleData, World, Code, M, zeroed, store, Parsed-cases}
use tcldtrace.Api.{Env, Opened, opened, failed}
use tcldtrace.Helpers.Registry.{new_hd, del_hd, int_max}
use tcldtrace.Helpers.Checks.{fail_with}
use tcldtrace.Commands.Open.{
  set_options, open_throw, set_defaults, establish, open_done, open_handlers, options_result,
  open_options, open_result, open_handle, open_command,
}
use tcldtrace.Footprint.{
  LibCall, setopt, handle_err, handle_drop, handle_proc, handle_buffered, Acts, at_rest, calls,
  writes, IsHeld, Acts-IsHeld, Acts-handle_of, Ok, Ok-bind,
}
use tcldtrace.Footprint.Helpers.{set_options-Within}
use tcldtrace.Footprint.Owners.{OpenLaws, Owned, OwnedIn, steady-Owned, same-Owned, Acts-Owned}
use tcldtrace.Footprint.Entries.{removed-Owned, added-Owned}

-- A number not given out finds nothing, before or after.
unused :
    (heap : Dict HandleData) (id : ℕ) (hd : HandleData)
    → ((a : ℕ) (x : HandleData) → lookup a heap ≡ some x → a < id)
    → (a : ℕ) → lookup a (erase id (insert id hd heap)) ≡ lookup a heap
unused heap id hd given a = elim (Option-cases (lookup a heap)) [
  | inl none_there ↦
      ground (arith, lookup-erase id a (insert id hd heap), lookup-insert id a hd heap)
  | inr (x, there) ↦
      let below = given a x there in
      ground (arith, lookup-erase id a (insert id hd heap), lookup-insert id a hd heap)
]

-- del_hd on a structure that the table has under its number.
pub del_hd-Owned :
    {D : Type 0} (live : ℕ → D → Bool) (a : ℕ) (x : HandleData) (v : World D)
    → lookup a v.heap ≡ some x
    → ((b : ℕ) → lookup a v.handles ≡ some b → a ≡ b)
    → Owned live (erase a v.handles) (erase a v.heap) v.lib v.next_free_id
    → Ok (λ _. OwnedIn live) (del_hd a v)
unfolding del_hd
del_hd-Owned live a x v l named o = elim (Option-cases (lookup a v.handles)) [
  | inl gone ↦ rw (gone, del_hd) tt
  | inr (b, there) ↦
      let is : a ≡ b = named b there in
      let l' : lookup b v.heap ≡ some x = cc in
      rw (there, del_hd)
        (rw (l', del_hd)
          (subst (λ n. Owned live (erase a v.handles) (erase n v.heap) v.lib v.next_free_id) is o))
]

module _ {D : Type 0} (env : Env D) (live : ℕ → D → Bool) (laws : OpenLaws env live) where
  -- A structure with an open handle, and the ownership.
  module _ (a h : ℕ) (w : World D) (held : IsHeld a h w) (start : OwnedIn live w) where
    abbrev Open : World D → Type 0
    Open = Acts env a h w

    open_throw-Owned :
        (command code message : Bytes) (v : World D)
        → Open v
        → Ok (λ _. OwnedIn live) (open_throw env command a code message v)
    unfolding open_throw fail_with
    open_throw-Owned command code message v t =
        let own = Acts-IsHeld held t in
        let o = Acts-Owned live env laws a h w v held t start in
        let shut : World D = record v { lib = env.dtrace_close h v.lib } in
        rw (Acts-handle_of held t, open_throw)
          (Ok-bind (λ _. OwnedIn live) (λ _. OwnedIn live) (del_hd a shut) _
            (del_hd-Owned live a own.0 shut own.1 (o.named a) (
              removed-Owned live v.handles a h v.heap v.lib (env.dtrace_close h v.lib)
                v.next_free_id (λ k. laws.closing h k v.lib) own o))
            λ _ u q. q)

    set_defaults-Open : (v : World D) → Open v → Ok (λ _. Open) (set_defaults env a v)
    unfolding set_defaults
    set_defaults-Open v t =
        rw (Acts-handle_of held t, set_defaults)
          (elim (Bool-cases (env.dtrace_setopt h (text "bufsize") (text "4m") v.lib).0) [
            | inr bad ↦ rw (bad, set_defaults) (calls t (setopt _ _))
            | inl good ↦
                rw (good, set_defaults)
                  (calls (calls t (setopt _ _)) (setopt (text "aggsize") (text "4m")))
          ])

    establish-Owned :
        (command : Bytes) (register : ℕ → ℕ → D → Bool × D) (message : Bytes) (rest : M D Code)
        → ((d : D) → LibCall env h d (register h a d).1)
        → ((v : World D) → Open v → Ok (λ _. OwnedIn live) (rest v))
        → (v : World D) → Open v
        → Ok (λ _. OwnedIn live) (establish env command a register message rest v)
    unfolding establish
    establish-Owned command register message rest call k v t =
        rw (Acts-handle_of held t, establish)
          (elim (Bool-cases (register h a v.lib).0) [
            | inl good ↦ rw (good, establish) (k _ (calls t (call v.lib)))
            | inr bad ↦
                rw (bad, establish)
                  (open_throw-Owned command (text "LIB") message _ (calls t (call v.lib)))
          ])

    open_done-Owned : (v : World D) → Open v → Ok (λ _. OwnedIn live) (open_done env a v)
    unfolding open_done
    open_done-Owned v t =
        let (hd, l, e) = Acts-IsHeld held t in
        rw (l, open_done)
          (rw (l, store)
            (Acts-Owned live env laws a h w _ held (writes (record hd { interp = true }) t e)
              start))

    open_handlers-Owned :
        (command : Bytes) (v : World D)
        → Open v
        → Ok (λ _. OwnedIn live) (open_handlers env command a v)
    unfolding open_handlers
    open_handlers-Owned command =
        establish-Owned command env.dtrace_handle_err _ _ (λ d. handle_err a)
          (establish-Owned command env.dtrace_handle_drop _ _ (λ d. handle_drop a)
            (establish-Owned command env.dtrace_handle_proc _ _ (λ d. handle_proc a)
              (establish-Owned command env.dtrace_handle_buffered _ _ (λ d. handle_buffered a)
                open_done-Owned)))

    options_result-Owned :
        (command : Bytes) (bad : Option Bytes) (v : World D)
        → Open v
        → Ok (λ _. OwnedIn live) (options_result env command a bad v)
    unfolding options_result
    options_result-Owned command none v t = open_handlers-Owned command v t
    options_result-Owned command (some option) v t = open_throw-Owned command _ _ v t

    open_options-Owned :
        (command : Bytes) (objv : List Obj) (v : World D)
        → Open v
        → Ok (λ _. OwnedIn live) (open_options env command a objv v)
    unfolding open_options
    open_options-Owned command objv v t =
        Ok-bind (λ _. Open) (λ _. OwnedIn live) (set_defaults env a v) _ (set_defaults-Open v t)
          λ good u q. elim (Bool-cases good) [
            | inr bad ↦ rw bad (open_throw-Owned command _ _ u q)
            | inl fine ↦ rw fine (
                Ok-bind (λ _. Open) (λ _. OwnedIn live) (set_options env a (drop 1 objv) u) _
                  (set_options-Within env a h w held (drop 1 objv) u q)
                  λ bad u' q'. options_result-Owned command bad u' q')
          ]

  open_result-Owned :
      (command : Bytes) (objv : List Obj) (r : Opened) (flags : ℕ) (w : World D)
      → OwnedIn live w
      → (env.dtrace_open flags w.lib).0 ≡ r
      → Ok
          (λ _. OwnedIn live)
          (open_result env command w.next_free_id objv r (record w {
            next_free_id = w.next_free_id + 1;
            heap = insert w.next_free_id zeroed w.heap;
            handles = insert w.next_free_id w.next_free_id w.handles;
            lib = (env.dtrace_open flags w.lib).1;
          }))
  unfolding open_result del_hd fail_with
  open_result-Owned command objv (failed error) flags w o is =
      let id = w.next_free_id in
      rw (lookup-insert_self id id w.handles, del_hd)
        (rw (lookup-insert_self id zeroed w.heap, del_hd)
          (same-Owned live w.handles (erase id (insert id id w.handles)) w.heap
            (erase id (insert id zeroed w.heap)) (env.dtrace_open flags w.lib).1 id (id + 1)
            (λ k a l.
              ground (
                arith,
                lookup-erase id k (insert id id w.handles),
                lookup-insert id k id w.handles,
              ))
            (unused w.heap id zeroed o.given) (omega arith)
            (steady-Owned live w.handles w.heap w.lib (env.dtrace_open flags w.lib).1 id
              (laws.failing flags w.lib error is) o)))
  open_result-Owned command objv (opened h) flags w o is =
      let id = w.next_free_id in
      let hd : HandleData = record zeroed { handle = some h } in
      let (new, up) = laws.opening flags w.lib h is in
      let w' : World D = record w {
        next_free_id = id + 1;
        heap = insert id hd w.heap;
        handles = insert id id w.handles;
        lib = (env.dtrace_open flags w.lib).1;
      } in
      rw (lookup-insert_self id zeroed w.heap, open_result)
        (rw (lookup-insert_self id zeroed w.heap, store)
          (rw (insert-insert id zeroed hd w.heap) (
            open_options-Owned id h w' (hd, lookup-insert_self id hd w.heap, refl)
              (added-Owned live w.handles h hd w.heap w.lib (env.dtrace_open flags w.lib).1 id new
                up refl o)
              command objv w' at_rest)))

  open_handle-Owned :
      (command : Bytes) (flags : ℕ) (objv : List Obj) (w : World D)
      → OwnedIn live w
      → Ok (λ _. OwnedIn live) (open_handle env command flags objv w)
  unfolding open_handle new_hd
  open_handle-Owned command flags objv w o = elim (Bool-cases (ltb w.next_free_id int_max)) [
    | inr full ↦ rw (full, new_hd) tt
    | inl room ↦ elim (Option-cases (lookup w.next_free_id w.handles)) [
      | inr (a, taken) ↦ rw (room, new_hd) (rw (taken, new_hd) tt)
      | inl new ↦
          rw (room, new_hd)
            (rw (new, new_hd)
              (open_result-Owned command objv (env.dtrace_open flags w.lib).0 flags w o refl))
    ]
  ]

  pub open_command-Owned :
      (objv : List Obj) (w : World D)
      → OwnedIn live w
      → Ok (λ _. OwnedIn live) (open_command env objv w)
  unfolding open_command fail_with
  open_command-Owned objv w o = elim (Option-cases (get_elem? objv 0)) [
    | inl gone ↦ rw (gone, open_command) tt
    | inr (name, first) ↦
        rw (first, open_command)
          (elim (Bool-cases (ltb 1 (length objv) && length objv % 2 == 0)) [
            | inr plain ↦ rw (plain, open_command) (open_handle-Owned name.str 0 objv w o)
            | inl flagged ↦
                rw (flagged, open_command)
                  (elim (Option-cases (get_elem? objv (length objv - 1))) [
                    | inl gone ↦ rw (gone, open_command) tt
                    | inr (last, there) ↦
                        rw (there, open_command)
                          (elim (Parsed-cases (env.get_boolean last)) [
                            | inl (m, bad) ↦ rw (bad, open_command) o
                            | inr (b, good) ↦
                                rw (good, open_command) (open_handle-Owned name.str _ objv w o)
                          ])
                  ])
          ])
  ]
