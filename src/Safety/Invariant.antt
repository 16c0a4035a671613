-- ===== src/Safety/Invariant.antt =====
-- The invariant of `dtrace_data` and of the `handle_data` structures that it leads to, and the rule by
-- which it is carried through a computation.
use tcldtrace.Prelude.{
  ℕ, ◌+◌, ◌≤◌, ◌<◌, ◌≡◌, refl, ◌≢◌, inl, inr, true, Option, none, some, arith, length, get_elem?,
  Dict, lookup, insert, erase, lookup-insert, lookup-erase, ◌==◌, Bool-cases, subst, ap, sym, ◌∙◌,
}
use tcldtrace.State.{Obj, HandleData, ProgramData, World, zeroed, Out, M, done, panic, fault, bind}
use tcldtrace.Safety.Scope.{Scope, View, view, added, dropped, registered_for}
use tcldtrace.Safety.Held.{held, held_by, total, total-erase, total-erase_le, total-insert}

-- What holds of a result. A panic ends the process, and after what C leaves undefined nothing is said of
-- it: both are as good as what the scope says.
abbrev pub Post : {D A : Type 0} → Scope → (A → World D → Type 0) → Out D A → Type 0
Post s Q (done a w) = Q a w
Post s Q (panic m) = s.panics
Post s Q fault = s.panics

module _ {D A B : Type 0} (s : Scope) (R : A → World D → Type 0) (Q : B → World D → Type 0) where
  pub Post-bind :
      (m : Out D A) (f : A → M D B)
      → Post s R m
      → ((a : A) (w : World D) → R a w → Post s Q (f a w))
      → Post s Q (bind m f)
  Post-bind (done a w) f r k = k a w r
  Post-bind (panic m) f r k = r
  Post-bind fault f r k = r

-- The same where a predicate on the state is carried along.
pub carry :
    {D A B : Type 0} (s : Scope) (P : World D → Type 0) (Q : B → World D → Type 0) (m : Out D A)
    (f : A → M D B)
    → Post s (λ _. P) m
    → ((a : A) (w : World D) → P w → Post s Q (f a w))
    → Post s Q (bind m f)
carry s P Q m f r k = Post-bind s (λ _. P) Q m f r k

-- A `handle_data`: the vector of processes is as long as its capacity says and is written up to the
-- count, and a registered callback has its argument.
pub record IsWellFormed (hd : HandleData) : Type 0 where
  pub count_le : hd.proc_count ≤ hd.proc_capacity
  pub cells : length hd.processes ≡ hd.proc_capacity
  pub written : (i : ℕ) → i < hd.proc_count → (p : ℕ) × (get_elem? hd.processes i ≡ some (some p))
  pub slots : (i : ℕ) (c : Obj) → hd.callbacks i ≡ some c → (x : Obj) × (hd.args i ≡ some x)

-- Every entry of `handles` leads to a live structure, every live structure is in the table under its
-- own number and well-formed, every program belongs to a live structure, and numbers not yet given
-- out are free. A structure with a libdtrace handle has its interpreter, but for the one that is being
-- opened, `opening`. The frame holds of the tables. No object has fewer references than the entries of
-- the live structures hold and others are owed.
pub record Tables (s : Scope) (opening : Option ℕ) (v : View) (heap : Dict HandleData)
    (refs : ℕ → ℕ) : Type 0 where
  pub named :
      (k a : ℕ)
      → lookup k v.handles ≡ some a
      → (hd : HandleData) × (a ≡ k) × (lookup a heap ≡ some hd)
  pub owned :
      (a : ℕ) (hd : HandleData)
      → lookup a heap ≡ some hd
      → (lookup a v.handles ≡ some a) × IsWellFormed hd
  pub attached :
      (k : ℕ) (pd : ProgramData)
      → lookup k v.programs ≡ some pd
      → (hd : HandleData) × (lookup pd.hd heap ≡ some hd)
  pub ready :
      (a h : ℕ) (hd : HandleData)
      → opening ≢ some a
      → lookup a heap ≡ some hd
      → hd.handle ≡ some h
      → hd.interp ≡ true
  pub fresh_id : (k : ℕ) → v.next_id ≤ k → lookup k v.handles ≡ none
  pub fresh_pid : (k : ℕ) → v.next_pid ≤ k → lookup k v.programs ≡ none
  pub framed : s.frame v
  pub counted : (n : ℕ) → s.owed n + total heap n ≤ refs n

abbrev pub Inv : {D : Type 0} → Scope → World D → Type 0
Inv s w = Tables s none (view w) w.heap w.refs

-- The invariant while `Open` works on the structure at an address.
abbrev pub InvBut : {D : Type 0} → Scope → ℕ → World D → Type 0
InvBut s a w = Tables s (some a) (view w) w.heap w.refs

-- The structure at an address is live and has a libdtrace handle.
abbrev pub Live : {D : Type 0} → ℕ → World D → Type 0
Live a w = (hd : HandleData) × (h : ℕ) × (lookup a w.heap ≡ some hd) × (hd.handle ≡ some h)

abbrev pub Good : {D : Type 0} → Scope → ℕ → World D → Type 0
Good s a w = Inv s w × Live a w

pub zeroed-IsWellFormed : IsWellFormed zeroed
zeroed-IsWellFormed = record {
  count_le = omega arith;
  cells = refl;
  written = λ i h. absurd (omega arith);
  slots = λ i c e. absurd (cc);
}

zeroed_holds : (n : ℕ) → held_by zeroed n ≡ 0
unfolding held
zeroed_holds n = refl

-- An entry written or added hides none.
insert_keeps :
    (a b : ℕ) (hd old : HandleData) (heap : Dict HandleData)
    → lookup b heap ≡ some old
    → (x : HandleData) × (lookup b (insert a hd heap) ≡ some x)
insert_keeps a b hd old heap e = elim (Bool-cases (a == b)) [
  | inl same ↦ (hd, rw (lookup-insert a b hd heap, same) refl)
  | inr other ↦ (old, rw (lookup-insert a b hd heap, other) e)
]

-- A frame that follows from another, and owed references that are covered by the same counts.
pub reframe :
    (s s' : Scope) {opening : Option ℕ} {v : View} {heap : Dict HandleData} {refs refs' : ℕ → ℕ}
    → (s.frame v → s'.frame v)
    → ((n : ℕ) → s.owed n + total heap n ≤ refs n → s'.owed n + total heap n ≤ refs' n)
    → Tables s opening v heap refs
    → Tables s' opening v heap refs'
reframe s s' sub pays t = record {
  named = t.named;
  owned = t.owned;
  attached = t.attached;
  ready = t.ready;
  fresh_id = t.fresh_id;
  fresh_pid = t.fresh_pid;
  framed = sub t.framed;
  counted = λ n. pays n (t.counted n);
}

module _ {s : Scope} {v : View} {heap : Dict HandleData} {refs : ℕ → ℕ} where
  -- A structure added under the next number, as `new_hd` does.
  pub new-Tables :
      (F : View → Type 0)
      → F (added v)
      → Tables s none v heap refs
      → Tables
          (record s { frame = F })
          (some v.next_id)
          (added v)
          (insert v.next_id zeroed heap)
          refs
  new-Tables F f t =
      let id = v.next_id in
      record {
        framed = f;
        counted = λ n. omega (
          arith,
          t.counted n,
          total-insert id zeroed heap n,
          total-erase_le id heap n,
          zeroed_holds n,
        );
        ready = λ b h hd' ex l l'. elim (Bool-cases (id == b)) [
          | inl same ↦ absurd (ex (ap some (ground arith)))
          | inr other ↦
              t.ready b h hd' (λ e. cc) (ground (arith, lookup-insert id b zeroed heap)) l'
        ];
        named = λ k b h. elim (Bool-cases (id == k)) [
          | inl same ↦
              let at : id ≡ b = ground (arith, lookup-insert id k id v.handles) in
              (
                zeroed,
                ground arith,
                subst (λ n. lookup n (insert id zeroed heap) ≡ some zeroed) at
                    (ground (arith, lookup-insert id id zeroed heap)),
              )
          | inr other ↦
              let (x, n, l) = t.named k b (ground (arith, lookup-insert id k id v.handles)) in
              let (y, m) = insert_keeps id b zeroed x heap l in (y, n, m)
        ];
        owned = λ b hd' h. elim (Bool-cases (id == b)) [
          | inl same ↦
              let is : zeroed ≡ hd' = ground (arith, lookup-insert id b zeroed heap) in
              (
                ground (arith, lookup-insert id b id v.handles),
                subst IsWellFormed is zeroed-IsWellFormed,
              )
          | inr other ↦
              let (l, wf) = t.owned b hd' (ground (arith, lookup-insert id b zeroed heap)) in
              (ground (arith, lookup-insert id b id v.handles), wf)
        ];
        attached =
            λ k pd h. let (x, l) = t.attached k pd h in insert_keeps id pd.hd zeroed x heap l;
        fresh_id = λ k h. ground (arith, lookup-insert id k id v.handles, t.fresh_id k);
        fresh_pid = t.fresh_pid;
      }

module _ {s : Scope} {opening : Option ℕ} {v : View} {heap : Dict HandleData} {refs : ℕ → ℕ} where
  -- A live structure overwritten by a well-formed one, with the references that it holds more.
  pub store-Tables :
      (a : ℕ) (old hd : HandleData) (refs' : ℕ → ℕ)
      → Tables s opening v heap refs
      → lookup a heap ≡ some old
      → IsWellFormed hd
      → ((h : ℕ) → opening ≢ some a → hd.handle ≡ some h → hd.interp ≡ true)
      → ((n : ℕ) → refs n + held_by hd n ≤ refs' n + held_by old n)
      → Tables s opening v (insert a hd heap) refs'
  store-Tables a old hd refs' t e wf rdy pays = record {
    framed = t.framed;
    counted = λ n.
        omega (arith, t.counted n, total-insert a hd heap n, total-erase a old heap n e, pays n);
    ready = λ b h hd' ex l l'. elim (Bool-cases (a == b)) [
      | inl same ↦
          let at : b ≡ a = ground arith in
          let is : hd ≡ hd' = ground (arith, lookup-insert a b hd heap) in
          subst (λ x. x.interp ≡ true) is
            (rdy h (λ e. ex (e ∙ ap some (sym at))) (ap (λ x. x.handle) is ∙ l'))
      | inr other ↦ t.ready b h hd' ex (ground (arith, lookup-insert a b hd heap)) l'
    ];
    named = λ k b h.
        let (x, n, l) = t.named k b h in let (y, m) = insert_keeps a b hd x heap l in (y, n, m);
    owned = λ b hd' h. elim (Bool-cases (a == b)) [
      | inl same ↦
          let at : a ≡ b = ground arith in
          let is : hd ≡ hd' = ground (arith, lookup-insert a b hd heap) in
          (
            subst (λ n. lookup n v.handles ≡ some n) at (t.owned a old e).0,
            subst IsWellFormed is wf,
          )
      | inr other ↦ t.owned b hd' (ground (arith, lookup-insert a b hd heap))
    ];
    attached = λ k pd h. let (x, l) = t.attached k pd h in insert_keeps a pd.hd hd x heap l;
    fresh_id = t.fresh_id;
    fresh_pid = t.fresh_pid;
  }

  -- A program added under the next number, as `register_pd` does.
  pub register-Tables :
      (F : View → Type 0) (a compiled : ℕ) (hd : HandleData)
      → F (registered_for a compiled v)
      → Tables s opening v heap refs
      → lookup a heap ≡ some hd
      → Tables (record s { frame = F }) opening (registered_for a compiled v) heap refs
  register-Tables F a compiled hd f t e =
      let pd : ProgramData = record { compiled = compiled; hd = a } in
      record {
        framed = f;
        counted = t.counted;
        named = t.named;
        owned = t.owned;
        ready = t.ready;
        attached = λ k pd' h. elim (Bool-cases (v.next_pid == k)) [
          | inl same ↦
              let is : a ≡ pd'.hd = ground (arith, lookup-insert v.next_pid k pd v.programs) in
              (hd, subst (λ n. lookup n heap ≡ some hd) is e)
          | inr other ↦ t.attached k pd' (ground (arith, lookup-insert v.next_pid k pd v.programs))
        ];
        fresh_id = t.fresh_id;
        fresh_pid = λ k h. ground (arith, lookup-insert v.next_pid k pd v.programs, t.fresh_pid k);
      }

  -- A structure freed with its entry, and every program with it, as `del_hd` does, where the other
  -- structures' references are counted.
  pub delete-Tables :
      (F : View → Type 0) (a : ℕ) (refs' : ℕ → ℕ)
      → F (dropped a v)
      → Tables s opening v heap refs
      → ((b : ℕ) → opening ≡ some b → a ≡ b)
      → ((n : ℕ) → s.owed n + total (erase a heap) n ≤ refs' n)
      → Tables (record s { frame = F }) none (dropped a v) (erase a heap) refs'
  delete-Tables F a refs' f t only pays = record {
    framed = f;
    counted = pays;
    ready = λ b h hd ex l l'. elim (Bool-cases (a == b)) [
      | inl same ↦ absurd (ground (arith, lookup-erase a b heap))
      | inr other ↦
          t.ready b h hd (λ e. ground (arith, only b e)) (ground (arith, lookup-erase a b heap)) l'
    ];
    named = λ k b h. elim (Bool-cases (a == k)) [
      | inl same ↦ absurd (ground (arith, lookup-erase a k v.handles))
      | inr other ↦
          let (x, n, l) = t.named k b (ground (arith, lookup-erase a k v.handles)) in
          (x, n, ground (arith, lookup-erase a b heap))
    ];
    owned = λ b hd h. elim (Bool-cases (a == b)) [
      | inl same ↦ absurd (ground (arith, lookup-erase a b heap))
      | inr other ↦
          let (l, wf) = t.owned b hd (ground (arith, lookup-erase a b heap)) in
          (ground (arith, lookup-erase a b v.handles), wf)
    ];
    attached = λ k pd h. absurd (unfold lookup in cc);
    fresh_id = λ k h. ground (arith, lookup-erase a k v.handles, t.fresh_id k);
    fresh_pid = λ k h. unfold lookup in refl;
  }
