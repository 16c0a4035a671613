-- ===== src/Safety/Callbacks.antt =====
-- Every function that libdtrace calls back keeps the invariant, whatever its script does.
use tcldtrace.Prelude.{
  ℕ, suc, ◌+◌, ltb, ◌≡◌, inl, inr, Bool, true, false, Option, none, some, List, Bytes, ℤ, arith,
  lookup, Bool-cases, Option-cases,
}
use tcldtrace.State.{
  Obj, Value, HandleData, AggregationData, ListArg, World, Out, M, pure, bind, load, store, deref,
  handle_of,
}
use tcldtrace.Api.{Env, ProbeDesc, ProbeData, BufData, DropData, ErrData, StmtDesc, Call, Reply}
use tcldtrace.Helpers.Format.{cut_white_space, skip_spaces, last_nonspace, tuple_strlen}
use tcldtrace.Callbacks.{
  interp_of, background_error, callback_result, callback_eval, chew, chewrec, bufhandler,
  append_value, append_member, need_tuple, agghandler, buf_or_agg, drophandler, errhandler,
  prochandler, list_probe, list_statement, unmatched, iteration_result, is_last, deliver,
  cb_probe_desc, cb_probe_output, cb_drop, cb_error, cb_proc,
}
use tcldtrace.Safety.Held.{incr_refs-occurs, decr_refs-occurs}
use tcldtrace.Safety.Held.{occurs}
use tcldtrace.Safety.Scope.{Scope, IsClosed}
use tcldtrace.Safety.Invariant.{Post, Post-bind, Inv, reframe, store-Tables}
use tcldtrace.Safety.Laws.{Laws, IsOrderly}

module _ {D : Type 0} (s : Scope) where
  -- A computation that keeps the invariant, if it returns.
  abbrev pub Kept : {A : Type 0} → Out D A → Type 0
  Kept m = Post s (λ _. Inv s) m

  pub Kept-bind :
      {A B : Type 0} (m : Out D A) (f : A → M D B)
      → Kept m
      → ((a : A) (w : World D) → Inv s w → Kept (f a w))
      → Kept (bind m f)
  Kept-bind m f q k = Post-bind s (λ _. Inv s) (λ _. Inv s) m f q k

  pub Kept-deref :
      {A B : Type 0} (p : s.panics) (o : Option A) (f : A → M D B) (w : World D)
      → ((x : A) → Kept (f x w))
      → Kept (bind (deref o w) f)
  Kept-deref p none f w k = p
  Kept-deref p (some x) f w k = k x

  pub Kept-handle_of :
      {B : Type 0} (p : s.panics) (a : ℕ) (f : ℕ → M D B) (w : World D)
      → ((h : ℕ) → Kept (f h w))
      → Kept (bind (handle_of a w) f)
  Kept-handle_of p a f w k = elim (Option-cases (lookup a w.heap)) [
    | inl gone ↦ rw (gone, handle_of) p
    | inr (hd, l) ↦ elim (Option-cases hd.handle) [
      | inl shut ↦ rw (l, handle_of) (rw (shut, handle_of) p)
      | inr (h, e) ↦ rw (l, handle_of) (rw (e, handle_of) (k h))
    ]
  ]

  -- A change of the aggregation data alone.
  pub set_agg-Inv :
      (a : ℕ) (hd : HandleData) (agg : AggregationData) (w : World D)
      → Inv s w
      → lookup a w.heap ≡ some hd
      → Post s (λ _. Inv s) (store a (record hd { agg = agg }) w)
  set_agg-Inv a hd agg w inv e =
      let wf = (inv.owned a hd e).1 in
      rw (e, store)
        (store-Tables a hd (record hd { agg = agg }) w.refs inv e
          (record {
            count_le = wf.count_le;
            cells = wf.cells;
            written = wf.written;
            slots = wf.slots;
          })
          (λ h' ex l. inv.ready a h' hd ex e l) (λ n. omega arith))

module _ {D : Type 0} (env : Env D) (laws : Laws env) (orderly : IsOrderly env) (s : Scope)
    (p : s.panics) (closed : IsClosed s.frame) where
  interp_of-Inv : (a : ℕ) (w : World D) → Inv s w → Kept s (interp_of a w)
  unfolding interp_of
  interp_of-Inv a w o = elim (Option-cases (lookup a w.heap)) [
    | inl gone ↦ rw (gone, interp_of) p
    | inr (hd, l) ↦ elim (Bool-cases hd.interp) [
      | inl there ↦ rw (l, interp_of) (rw (there, interp_of) o)
      | inr away ↦ rw (l, interp_of) (rw (away, interp_of) p)
    ]
  ]

  callback_result-Inv :
      (a : ℕ) (cbname : Bytes) (errcode go_on : Reply) (good : Bool) (w : World D)
      → Inv s w
      → Kept s (callback_result env a cbname errcode go_on good w)
  unfolding callback_result background_error
  callback_result-Inv a cbname errcode go_on true w o = o
  callback_result-Inv a cbname errcode go_on false w o =
      Kept-bind s (interp_of a w) _ (interp_of-Inv a w o) λ _ v q. q

  -- While a script runs, the references on the words of its call are owed.
  callback_eval-Inv :
      (a : ℕ) (objv : List Value) (cbname : Bytes) (errcode go_on : Reply) (w : World D)
      → Inv s w
      → Kept s (callback_eval env a objv cbname errcode go_on w)
  unfolding callback_eval
  callback_eval-Inv a objv cbname errcode go_on w o =
      Kept-bind s (interp_of a w) _ (interp_of-Inv a w o) λ _ v q.
        let (up, r, c) = incr_refs-occurs objv v in
        let lent : Scope = record s { owed = λ n. s.owed n + occurs objv n } in
        rw r (
          Post-bind s (λ _. Inv lent) (λ _. Inv s) (env.eval_objv objv (record v { refs = up })) _
            (orderly lent p closed objv (record v { refs = up })
              (reframe s lent (λ f. f) (λ n k. omega (arith, c n, k)) q))
            λ good u t.
              let (down, r', c') = decr_refs-occurs objv u in
              rw r' (
                callback_result-Inv a cbname errcode go_on good (record u { refs = down })
                  (reframe lent s (λ f. f) (λ n k. omega (arith, c' n, k)) t)))

  -- A callback does nothing where no procedure is registered, and else goes on with it.
  called-Inv :
      (a i : ℕ) (idle : Reply) (rest : HandleData → Obj → M D Reply) (w : World D)
      → Inv s w
      → ((hd : HandleData) (proc : Obj) → Kept s (rest hd proc w))
      → Kept s (
          bind
            (load a w)
            (λ hd. elim (hd.callbacks i) [ none ↦ pure idle | some proc ↦ rest hd proc ]))
  called-Inv a i idle rest w o k = elim (Option-cases (lookup a w.heap)) [
    | inl gone ↦ rw gone p
    | inr (hd, l) ↦ elim (Option-cases (hd.callbacks i)) [
      | inl silent ↦ rw l (rw silent o)
      | inr (proc, s) ↦ rw l (rw s (k hd proc))
    ]
  ]

  chew-Inv : (a : ℕ) (d : ProbeData) (w : World D) → Inv s w → Kept s (chew env a d w)
  unfolding chew
  chew-Inv a d w o =
      called-Inv a _ _ _ w o λ hd proc.
        Kept-deref s p (hd.args cb_probe_desc) _ w λ extra. callback_eval-Inv a _ _ _ _ w o

  drophandler-Inv : (a : ℕ) (d : DropData) (w : World D) → Inv s w → Kept s (drophandler env a d w)
  unfolding drophandler
  drophandler-Inv a d w o =
      called-Inv a _ _ _ w o
        λ hd proc. Kept-deref s p (hd.args cb_drop) _ w λ extra. callback_eval-Inv a _ _ _ _ w o

  errhandler-Inv : (a : ℕ) (d : ErrData) (w : World D) → Inv s w → Kept s (errhandler env a d w)
  unfolding errhandler
  errhandler-Inv a d w o =
      called-Inv a _ _ _ w o
        λ hd proc. Kept-deref s p (hd.args cb_error) _ w λ extra. callback_eval-Inv a _ _ _ _ w o

  prochandler-Inv :
      (a : ℕ) (pid : ℤ) (msg : Bytes) (w : World D) → Inv s w → Kept s (prochandler env a pid msg w)
  unfolding prochandler
  prochandler-Inv a pid msg w o =
      called-Inv a _ _ _ w o
        λ hd proc. Kept-deref s p (hd.args cb_proc) _ w λ extra. callback_eval-Inv a _ _ _ _ w o

  bufhandler-Inv : (a : ℕ) (d : BufData) (w : World D) → Inv s w → Kept s (bufhandler env a d w)
  unfolding bufhandler
  bufhandler-Inv a d w o = called-Inv a _ _ _ w o λ hd proc.
      Kept-deref s p (hd.args cb_probe_output) _ w
        λ extra. Kept-deref s p d.dtbda_recdesc _ w λ action. callback_eval-Inv a _ _ _ _ w o

  cut_white_space-Inv : (t : Bytes) (w : World D) → Inv s w → Kept s (cut_white_space t w)
  unfolding cut_white_space
  cut_white_space-Inv t w o = elim (Option-cases (last_nonspace 0 none (skip_spaces t))) [
    | inl blank ↦ rw (blank, cut_white_space) p
    | inr (size, e) ↦ elim (Bool-cases (ltb (suc size) tuple_strlen)) [
      | inl fits ↦ rw (e, cut_white_space) (rw (fits, cut_white_space) o)
      | inr long ↦ rw (e, cut_white_space) (rw (long, cut_white_space) p)
    ]
  ]

  need_tuple-Inv : (a : ℕ) (w : World D) → Inv s w → Kept s (need_tuple env a w)
  unfolding need_tuple
  need_tuple-Inv a w o =
      Kept-deref s p (lookup a w.heap) _ w
        λ hd. elim (Option-cases hd.agg.tuple) [ inl bare ↦ rw bare p | inr (tuple, e) ↦ rw e o ]

  append_value-Inv :
      (a : ℕ) (cut : Bytes) (w : World D) → Inv s w → Kept s (append_value env a cut w)
  unfolding append_value
  append_value-Inv a cut w o = elim (Option-cases (lookup a w.heap)) [
    | inl gone ↦ rw (gone, append_value) p
    | inr (hd, l) ↦ elim (Option-cases hd.agg.tuple) [
      | inl bare ↦ rw (l, append_value) (rw (bare, append_value) p)
      | inr (tuple, e) ↦
          rw (l, append_value)
            (rw (e, append_value)
              (Kept-deref s p hd.agg.list _ w λ so_far. set_agg-Inv s a hd _ w o l))
    ]
  ]

  append_member-Inv :
      (a : ℕ) (cut : Bytes) (w : World D) → Inv s w → Kept s (append_member env a cut w)
  unfolding append_member
  append_member-Inv a cut w o = elim (Option-cases (lookup a w.heap)) [
    | inl gone ↦ rw (gone, append_member) p
    | inr (hd, l) ↦ rw (l, append_member) (set_agg-Inv s a hd _ w o l)
  ]

  agghandler-Inv : (a : ℕ) (d : BufData) (w : World D) → Inv s w → Kept s (agghandler env a d w)
  unfolding agghandler
  agghandler-Inv a d w o = elim (Option-cases d.dtbda_recdesc) [
    | inl silent ↦ rw (silent, agghandler) o
    | inr (action, e) ↦ elim (Bool-cases (env.dtraceact_isagg action)) [
      | inl value ↦
          rw (e, agghandler)
            (rw (value, agghandler)
              (Kept-bind s (need_tuple env a w) _ (need_tuple-Inv a w o) λ _ v q.
                Kept-bind s (cut_white_space d.dtbda_buffered v) _
                  (cut_white_space-Inv d.dtbda_buffered v q)
                  λ cut u p.
                    Kept-bind s (append_value env a cut u) _ (append_value-Inv a cut u p)
                      λ _ t r. r))
      | inr member ↦
          rw (e, agghandler)
            (rw (member, agghandler)
              (Kept-bind s (cut_white_space d.dtbda_buffered w) _
                (cut_white_space-Inv d.dtbda_buffered w o)
                λ cut u p.
                  Kept-bind s (append_member env a cut u) _ (append_member-Inv a cut u p)
                    λ _ t r. r))
    ]
  ]

  buf_or_agg-Inv : (a : ℕ) (d : BufData) (w : World D) → Inv s w → Kept s (buf_or_agg env a d w)
  unfolding buf_or_agg
  buf_or_agg-Inv a d w o = elim (Bool-cases d.dtbda_aggdata) [
    | inl row ↦ rw (row, buf_or_agg) (agghandler-Inv a d w o)
    | inr output ↦ rw (output, buf_or_agg) (bufhandler-Inv a d w o)
  ]

  pub deliver-Inv : (a : ℕ) (c : Call) (w : World D) → Inv s w → Kept s (deliver env a c w)
  unfolding deliver chewrec
  deliver-Inv a (Call.probe d) w o = chew-Inv a d w o
  deliver-Inv a (Call.record_of d) w o = o
  deliver-Inv a (Call.buffered d) w o = buf_or_agg-Inv a d w o
  deliver-Inv a (Call.dropped d) w o = drophandler-Inv a d w o
  deliver-Inv a (Call.erred d) w o = errhandler-Inv a d w o
  deliver-Inv a (Call.process pid msg) w o = prochandler-Inv a pid msg w o

  list_probe-Inv :
      (arg : ListArg) (d : ProbeDesc) (w : World D) → Inv s w → Kept s (list_probe env arg d w)
  unfolding list_probe
  list_probe-Inv arg d w o =
      Kept-deref s p (lookup arg.hd w.heap) _ w λ hd. callback_eval-Inv arg.hd _ _ _ _ w o

  pub list_statement-Inv :
      (arg : ListArg) (h : ℕ) (st : StmtDesc) (last : Option ℕ) (w : World D)
      → Inv s w
      → Kept s (list_statement env arg h st last w)
  unfolding list_statement iteration_result unmatched
  list_statement-Inv arg h st last w o = elim (Bool-cases (is_last st.dtsd_ecbdesc last)) [
    | inl same ↦ rw (same, list_statement) o
    | inr other ↦
        rw (other, list_statement)
          (Kept-bind s (env.dtrace_probe_iter h st.dted_probe (list_probe env arg) w) _
            (laws.probe_iter_keeps s h st.dted_probe (list_probe env arg) (Inv s) (λ v d i. i)
              (list_probe-Inv arg) w o)
            λ good v q. elim (Bool-cases good) [
              | inl well ↦ rw (well, iteration_result) q
              | inr bad ↦ rw (bad, iteration_result) p
            ])
  ]
