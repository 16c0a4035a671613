-- ===== src/Footprint/Called.antt =====
-- The callbacks of generic/dtrace.c leave each open libdtrace handle one owner.
use tcldtrace.Prelude.{
  ℕ, suc, ltb, refl, inl, inr, Bool, true, false, Option, none, some, List, Bytes, ℤ, lookup,
  Bool-cases, Option-cases,
}
use tcldtrace.State.{Obj, Value, HandleData, ListArg, World, M, pure, bind, load}
use tcldtrace.Api.{Env, ProbeDesc, ProbeData, BufData, DropData, ErrData, StmtDesc, Call, Reply}
use tcldtrace.Helpers.Format.{cut_white_space, skip_spaces, last_nonspace, tuple_strlen}
use tcldtrace.Callbacks.{
  interp_of, background_error, callback_result, callback_eval, chew, chewrec, bufhandler,
  append_value, append_member, need_tuple, agghandler, buf_or_agg, drophandler, errhandler,
  prochandler, list_probe, list_statement, unmatched, iteration_result, is_last, deliver,
  cb_probe_desc, cb_probe_output, cb_drop, cb_error, cb_proc,
}
use tcldtrace.Safety.Held.{incr_refs-occurs, decr_refs-occurs}
use tcldtrace.Footprint.Owners.{OwnedIn, steady-Owned}
use tcldtrace.Footprint.Serving.{
  IsSteady, CallingLaws, IsTidy, Keeps, Keeps-bind, Keeps-deref, Keeps-store,
}

-- Where libdtrace keeps the same handles open, the owners stay.
pub OwnedIn-IsSteady : {D : Type 0} (live : ℕ → D → Bool) → IsSteady live (OwnedIn live)
OwnedIn-IsSteady live w d same o = steady-Owned live w.handles w.heap w.lib d w.next_free_id same o

module _ {D : Type 0} (env : Env D) (live : ℕ → D → Bool) (laws : CallingLaws env live)
    (scripts : IsTidy env live) where
  interp_of-Keeps : (a : ℕ) (w : World D) → OwnedIn live w → Keeps live (interp_of a w)
  unfolding interp_of
  interp_of-Keeps a w o = elim (Option-cases (lookup a w.heap)) [
    | inl gone ↦ rw (gone, interp_of) tt
    | inr (hd, l) ↦ elim (Bool-cases hd.interp) [
      | inl there ↦ rw (l, interp_of) (rw (there, interp_of) o)
      | inr away ↦ rw (l, interp_of) (rw (away, interp_of) tt)
    ]
  ]

  callback_result-Keeps :
      (a : ℕ) (cbname : Bytes) (errcode go_on : Reply) (good : Bool) (w : World D)
      → OwnedIn live w
      → Keeps live (callback_result env a cbname errcode go_on good w)
  unfolding callback_result background_error
  callback_result-Keeps a cbname errcode go_on true w o = o
  callback_result-Keeps a cbname errcode go_on false w o =
      Keeps-bind live (interp_of a w) _ (interp_of-Keeps a w o) λ _ v q. q

  callback_eval-Keeps :
      (a : ℕ) (objv : List Value) (cbname : Bytes) (errcode go_on : Reply) (w : World D)
      → OwnedIn live w
      → Keeps live (callback_eval env a objv cbname errcode go_on w)
  unfolding callback_eval
  callback_eval-Keeps a objv cbname errcode go_on w o =
      Keeps-bind live (interp_of a w) _ (interp_of-Keeps a w o) λ _ v q.
        let (up, r, c) = incr_refs-occurs objv v in
        rw r (
          Keeps-bind live (env.eval_objv objv (record v { refs = up })) _
            (scripts objv (record v { refs = up }) q)
            λ good u p.
              let (down, r', c') = decr_refs-occurs objv u in
              rw r'
                (callback_result-Keeps a cbname errcode go_on good (record u { refs = down }) p))

  -- A callback does nothing where no procedure is registered, and else goes on with it.
  called-Keeps :
      (a i : ℕ) (idle : Reply) (rest : HandleData → Obj → M D Reply) (w : World D)
      → OwnedIn live w
      → ((hd : HandleData) (proc : Obj) → Keeps live (rest hd proc w))
      → Keeps live (
          bind
            (load a w)
            (λ hd. elim (hd.callbacks i) [ none ↦ pure idle | some proc ↦ rest hd proc ]))
  called-Keeps a i idle rest w o k = elim (Option-cases (lookup a w.heap)) [
    | inl gone ↦ rw gone tt
    | inr (hd, l) ↦ elim (Option-cases (hd.callbacks i)) [
      | inl silent ↦ rw l (rw silent o)
      | inr (proc, s) ↦ rw l (rw s (k hd proc))
    ]
  ]

  chew-Keeps : (a : ℕ) (d : ProbeData) (w : World D) → OwnedIn live w → Keeps live (chew env a d w)
  unfolding chew
  chew-Keeps a d w o = called-Keeps a _ _ _ w o λ hd proc.
      Keeps-deref live (hd.args cb_probe_desc) _ w λ extra. callback_eval-Keeps a _ _ _ _ w o

  drophandler-Keeps :
      (a : ℕ) (d : DropData) (w : World D) → OwnedIn live w → Keeps live (drophandler env a d w)
  unfolding drophandler
  drophandler-Keeps a d w o =
      called-Keeps a _ _ _ w o
        λ hd proc. Keeps-deref live (hd.args cb_drop) _ w λ extra. callback_eval-Keeps a _ _ _ _ w o

  errhandler-Keeps :
      (a : ℕ) (d : ErrData) (w : World D) → OwnedIn live w → Keeps live (errhandler env a d w)
  unfolding errhandler
  errhandler-Keeps a d w o =
      called-Keeps a _ _ _ w o λ hd proc.
        Keeps-deref live (hd.args cb_error) _ w λ extra. callback_eval-Keeps a _ _ _ _ w o

  prochandler-Keeps :
      (a : ℕ) (pid : ℤ) (msg : Bytes) (w : World D)
      → OwnedIn live w
      → Keeps live (prochandler env a pid msg w)
  unfolding prochandler
  prochandler-Keeps a pid msg w o =
      called-Keeps a _ _ _ w o
        λ hd proc. Keeps-deref live (hd.args cb_proc) _ w λ extra. callback_eval-Keeps a _ _ _ _ w o

  bufhandler-Keeps :
      (a : ℕ) (d : BufData) (w : World D) → OwnedIn live w → Keeps live (bufhandler env a d w)
  unfolding bufhandler
  bufhandler-Keeps a d w o = called-Keeps a _ _ _ w o λ hd proc.
      Keeps-deref live (hd.args cb_probe_output) _ w
        λ extra. Keeps-deref live d.dtbda_recdesc _ w λ action. callback_eval-Keeps a _ _ _ _ w o

  cut_white_space-Keeps :
      (t : Bytes) (w : World D) → OwnedIn live w → Keeps live (cut_white_space t w)
  unfolding cut_white_space
  cut_white_space-Keeps t w o = elim (Option-cases (last_nonspace 0 none (skip_spaces t))) [
    | inl blank ↦ rw (blank, cut_white_space) tt
    | inr (size, e) ↦ elim (Bool-cases (ltb (suc size) tuple_strlen)) [
      | inl fits ↦ rw (e, cut_white_space) (rw (fits, cut_white_space) o)
      | inr long ↦ rw (e, cut_white_space) (rw (long, cut_white_space) tt)
    ]
  ]

  need_tuple-Keeps : (a : ℕ) (w : World D) → OwnedIn live w → Keeps live (need_tuple env a w)
  unfolding need_tuple
  need_tuple-Keeps a w o =
      Keeps-deref live (lookup a w.heap) _ w
        λ hd. elim (Option-cases hd.agg.tuple) [ inl bare ↦ rw bare tt | inr (tuple, e) ↦ rw e o ]

  append_value-Keeps :
      (a : ℕ) (cut : Bytes) (w : World D) → OwnedIn live w → Keeps live (append_value env a cut w)
  unfolding append_value
  append_value-Keeps a cut w o = elim (Option-cases (lookup a w.heap)) [
    | inl gone ↦ rw (gone, append_value) tt
    | inr (hd, l) ↦ elim (Option-cases hd.agg.tuple) [
      | inl bare ↦ rw (l, append_value) (rw (bare, append_value) tt)
      | inr (tuple, e) ↦
          rw (l, append_value)
            (rw (e, append_value)
              (Keeps-deref live hd.agg.list _ w λ so_far. Keeps-store live a hd _ w o l refl))
    ]
  ]

  append_member-Keeps :
      (a : ℕ) (cut : Bytes) (w : World D) → OwnedIn live w → Keeps live (append_member env a cut w)
  unfolding append_member
  append_member-Keeps a cut w o = elim (Option-cases (lookup a w.heap)) [
    | inl gone ↦ rw (gone, append_member) tt
    | inr (hd, l) ↦ rw (l, append_member) (Keeps-store live a hd _ w o l refl)
  ]

  agghandler-Keeps :
      (a : ℕ) (d : BufData) (w : World D) → OwnedIn live w → Keeps live (agghandler env a d w)
  unfolding agghandler
  agghandler-Keeps a d w o = elim (Option-cases d.dtbda_recdesc) [
    | inl silent ↦ rw (silent, agghandler) o
    | inr (action, e) ↦ elim (Bool-cases (env.dtraceact_isagg action)) [
      | inl value ↦
          rw (e, agghandler)
            (rw (value, agghandler)
              (Keeps-bind live (need_tuple env a w) _ (need_tuple-Keeps a w o) λ _ v q.
                Keeps-bind live (cut_white_space d.dtbda_buffered v) _
                  (cut_white_space-Keeps d.dtbda_buffered v q)
                  λ cut u p.
                    Keeps-bind live (append_value env a cut u) _ (append_value-Keeps a cut u p)
                      λ _ t r. r))
      | inr member ↦
          rw (e, agghandler)
            (rw (member, agghandler)
              (Keeps-bind live (cut_white_space d.dtbda_buffered w) _
                (cut_white_space-Keeps d.dtbda_buffered w o)
                λ cut u p.
                  Keeps-bind live (append_member env a cut u) _ (append_member-Keeps a cut u p)
                    λ _ t r. r))
    ]
  ]

  buf_or_agg-Keeps :
      (a : ℕ) (d : BufData) (w : World D) → OwnedIn live w → Keeps live (buf_or_agg env a d w)
  unfolding buf_or_agg
  buf_or_agg-Keeps a d w o = elim (Bool-cases d.dtbda_aggdata) [
    | inl row ↦ rw (row, buf_or_agg) (agghandler-Keeps a d w o)
    | inr output ↦ rw (output, buf_or_agg) (bufhandler-Keeps a d w o)
  ]

  pub deliver-Keeps :
      (a : ℕ) (c : Call) (w : World D) → OwnedIn live w → Keeps live (deliver env a c w)
  unfolding deliver chewrec
  deliver-Keeps a (Call.probe d) w o = chew-Keeps a d w o
  deliver-Keeps a (Call.record_of d) w o = o
  deliver-Keeps a (Call.buffered d) w o = buf_or_agg-Keeps a d w o
  deliver-Keeps a (Call.dropped d) w o = drophandler-Keeps a d w o
  deliver-Keeps a (Call.erred d) w o = errhandler-Keeps a d w o
  deliver-Keeps a (Call.process pid msg) w o = prochandler-Keeps a pid msg w o

  list_probe-Keeps :
      (arg : ListArg) (d : ProbeDesc) (w : World D)
      → OwnedIn live w
      → Keeps live (list_probe env arg d w)
  unfolding list_probe
  list_probe-Keeps arg d w o =
      Keeps-deref live (lookup arg.hd w.heap) _ w λ hd. callback_eval-Keeps arg.hd _ _ _ _ w o

  pub list_statement-Keeps :
      (arg : ListArg) (h : ℕ) (st : StmtDesc) (last : Option ℕ) (w : World D)
      → OwnedIn live w
      → Keeps live (list_statement env arg h st last w)
  unfolding list_statement iteration_result unmatched
  list_statement-Keeps arg h st last w o = elim (Bool-cases (is_last st.dtsd_ecbdesc last)) [
    | inl same ↦ rw (same, list_statement) o
    | inr other ↦
        rw (other, list_statement)
          (Keeps-bind live (env.dtrace_probe_iter h st.dted_probe (list_probe env arg) w) _
            (laws.probe_iter h st.dted_probe (list_probe env arg) (OwnedIn live)
              (OwnedIn-IsSteady live) (list_probe-Keeps arg) w o)
            λ good v q. elim (Bool-cases good) [
              | inl well ↦ rw (well, iteration_result) q
              | inr bad ↦ rw (bad, iteration_result) tt
            ])
  ]
