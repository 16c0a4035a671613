-- ===== src/Aggregation.antt =====
-- generic/dtrace.c, agghandler: the records that libdtrace prints of an aggregation become the
-- alternating list of tuples and values that Aggregations returns.
use tcldtrace.Prelude.{
  ℕ, ◌≡◌, refl, true, false, Option, none, some, List, [], ◌∷◌, ◌++◌, map, append_assoc, append-nil,
  Bytes, lookup, insert, lookup-insert_self, insert-insert, ◌∙◌, ap, sym,
}
use tcldtrace.State.{
  Value, str, list, values, HandleData, World, Out, M, done, panic, bind, store, pure, tcl_ok, load,
  deref, set_result, ◌>>=◌, ◌>>◌,
}
use tcldtrace.Api.{Env, ActKind, ProbeData, BufData, Call, Reply, handle_ok}
use tcldtrace.Commands.Tracing.{aggregations_handle, print_aggregations}
use tcldtrace.Helpers.Format.{cut_white_space}
use tcldtrace.Callbacks.{
  append_value, append_member, need_tuple, agghandler, buf_or_agg, deliver, members,
}

-- The records of one aggregation, one after another, while the handler goes on.
unfoldable pub feed : {D : Type 0} → Env D → ℕ → List BufData → M D (Unit {0})
feed env a [] w = done tt w
feed env a (b ∷ bs) w = bind (deliver env a (Call.buffered b) w) λ _. feed env a bs

-- A text with what `cutWhiteSpace` makes of it.
pub record Cut (D : Type 0) : Type 0 where
  pub raw : Bytes
  pub text_of : Bytes
  pub cuts : (w : World D) → cut_white_space raw w ≡ done text_of w

-- One row: the members of the tuple, the value with the kind of its aggregation, and the white space
-- that libdtrace serves before each record and after the last.
pub record Row (D : Type 0) : Type 0 where
  pub first : Cut D
  pub others : List (Cut D)
  pub value : Cut D
  pub value_kind : ActKind
  pub before : List Bytes
  pub between : List Bytes
  pub end : List Bytes

-- Mere white space, which has no action.
unfoldable pub blank_record : ProbeData → Bytes → BufData
blank_record probe raw = record {
  dtbda_probe = probe;
  dtbda_recdesc = none;
  dtbda_buffered = raw;
  dtbda_aggdata = true;
}

module _ {D : Type 0} (probe : ProbeData) (member_kind : ActKind) where
  unfoldable pub member_record : Cut D → BufData
  member_record c = record {
    dtbda_probe = probe;
    dtbda_recdesc = some member_kind;
    dtbda_buffered = c.raw;
    dtbda_aggdata = true;
  }

  unfoldable pub value_record : ActKind → Cut D → BufData
  value_record value_kind c = record {
    dtbda_probe = probe;
    dtbda_recdesc = some value_kind;
    dtbda_buffered = c.raw;
    dtbda_aggdata = true;
  }

  -- The records of a row in libdtrace's order.
  unfoldable pub row_records : Row D → List BufData
  row_records r =
      map (blank_record probe) r.before
      ++ (member_record r.first
          ∷ (map member_record r.others
              ++ (map (blank_record probe) r.between
                  ++ (value_record r.value_kind r.value ∷ map (blank_record probe) r.end))))

  unfoldable pub records : List (Row D) → List BufData
  records [] = []
  records (r ∷ rs) = row_records r ++ records rs

-- What a row adds to the list.
pub row_values : {D : Type 0} → Row D → List Value
row_values r =
    list (values (str r.first.text_of ∷ map (λ c. str c.text_of) r.others))
    ∷ str r.value.text_of
    ∷ []

pub all_values : {D : Type 0} → List (Row D) → List Value
all_values [] = []
all_values (r ∷ rs) = row_values r ++ all_values rs

-- The state with the aggregation data of one structure changed.
pub with_agg :
    {D : Type 0} → ℕ → HandleData → Option (List Value) → Option (List Value) → World D → World D
with_agg a hd tuple so_far w = record w {
  heap = insert a (record hd { agg = record { tuple = tuple; list = so_far } }) w.heap;
}

-- The actions of the values are aggregations.
abbrev pub AreValues : {D : Type 0} → Env D → List (Row D) → Type 0
AreValues env [] = Unit
AreValues env (r ∷ rows) = (env.dtraceact_isagg r.value_kind ≡ true) × AreValues env rows

module _ {D : Type 0} (env : Env D) (probe : ProbeData) (member_kind : ActKind)
    (is_member : env.dtraceact_isagg member_kind ≡ false) where
  -- A member is added to the tuple under construction, which it begins if there is none.
  deliver-member :
      (a : ℕ) (c : Cut D) (hd : HandleData) (w : World D)
      → lookup a w.heap ≡ some hd
      → deliver env a (Call.buffered (member_record probe member_kind c)) w
        ≡ done handle_ok
            (with_agg a hd (some (members hd.agg.tuple ++ str c.text_of ∷ [])) hd.agg.list w)
  unfolding deliver buf_or_agg agghandler append_member member_record with_agg
  deliver-member a c hd w e =
      rw (is_member, deliver) (rw (c.cuts w, deliver) (rw (e, append_member) (rw (e, store) refl)))

  -- A value closes the tuple.
  deliver-value :
      (a : ℕ) (value_kind : ActKind) (c : Cut D) (hd : HandleData) (tuple so_far : List Value)
      (w : World D)
      → env.dtraceact_isagg value_kind ≡ true
      → lookup a w.heap ≡ some hd
      → hd.agg.tuple ≡ some tuple
      → hd.agg.list ≡ some so_far
      → deliver env a (Call.buffered (value_record probe member_kind value_kind c)) w
        ≡ done handle_ok
            (with_agg a hd none (some (so_far ++ list (values tuple) ∷ str c.text_of ∷ [])) w)
  unfolding deliver buf_or_agg agghandler append_value need_tuple value_record with_agg
  deliver-value a value_kind c hd tuple so_far w is_value e t l =
      rw (is_value, deliver)
        (rw (e, need_tuple)
          (rw (t, need_tuple)
            (rw (c.cuts w, deliver)
              (rw (e, append_value)
                (rw (t, append_value) (rw (l, append_value) (rw (e, store) refl)))))))

  feed-blanks :
      (a : ℕ) (raws : List Bytes) (bs : List BufData) (w : World D)
      → feed env a (map (blank_record probe) raws ++ bs) w ≡ feed env a bs w
  unfolding feed deliver buf_or_agg agghandler blank_record
  feed-blanks a [] bs w = refl
  feed-blanks a (raw ∷ raws) bs w = feed-blanks a raws bs w

  -- Two changes in a row are the second.
  with_agg-with_agg :
      (a : ℕ) (hd : HandleData) (t u l m : Option (List Value)) (w : World D)
      → with_agg a (record hd { agg = record { tuple = t; list = l } }) u m (with_agg a hd t l w)
        ≡ with_agg a hd u m w
  unfolding with_agg
  with_agg-with_agg a hd t u l m w = rw (insert-insert a _ _ w.heap)

  member_step :
      (a : ℕ) (c : Cut D) (hd : HandleData) (t l : Option (List Value)) (w : World D)
      → deliver env a (Call.buffered (member_record probe member_kind c)) (with_agg a hd t l w)
        ≡ done handle_ok (with_agg a hd (some (members t ++ str c.text_of ∷ [])) l w)
  member_step a c hd t l w =
      deliver-member a c (record hd { agg = record { tuple = t; list = l } }) (with_agg a hd t l w)
        (unfold with_agg in lookup-insert_self a _ w.heap)
      ∙ ap (done handle_ok) (with_agg-with_agg a hd t _ l l w)

  value_step :
      (a : ℕ) (value_kind : ActKind) (c : Cut D) (hd : HandleData) (t l : List Value) (w : World D)
      → env.dtraceact_isagg value_kind ≡ true
      → deliver env a
          (Call.buffered (value_record probe member_kind value_kind c))
          (with_agg a hd (some t) (some l) w)
        ≡ done handle_ok (with_agg a hd none (some (l ++ list (values t) ∷ str c.text_of ∷ [])) w)
  value_step a value_kind c hd t l w is_value =
      deliver-value a value_kind c (record hd { agg = record { tuple = some t; list = some l } }) t
        l (with_agg a hd (some t) (some l) w) is_value
        (unfold with_agg in lookup-insert_self a _ w.heap) refl refl
      ∙ ap (done handle_ok) (with_agg-with_agg a hd (some t) none (some l) _ w)

  -- The members of a tuple, then its value.
  feed-members :
      (a : ℕ) (cs : List (Cut D)) (value_kind : ActKind) (value : Cut D) (between end : List Bytes)
      (t l : List Value) (hd : HandleData) (w : World D)
      → env.dtraceact_isagg value_kind ≡ true
      → feed env a
          (map (member_record probe member_kind) cs
            ++ (map (blank_record probe) between
                ++ (value_record probe member_kind value_kind value
                    ∷ map (blank_record probe) end)))
          (with_agg a hd (some t) (some l) w)
        ≡ done tt (
            with_agg a hd none
              (some
                (l ++ list (values (t ++ map (λ c. str c.text_of) cs)) ∷ str value.text_of ∷ []))
              w)
  unfolding feed
  feed-members a [] value_kind value between end t l hd w v =
      feed-blanks a between _ (with_agg a hd (some t) (some l) w)
      ∙ rw (value_step a value_kind value hd t l w v, append-nil t) (only_blanks a end _)
    where
      only_blanks :
          (a : ℕ) (raws : List Bytes) (w : World D)
          → feed env a (map (blank_record probe) raws) w ≡ done tt w
      only_blanks a raws w =
          ap (λ bs. feed env a bs w) (sym (append-nil (map (blank_record probe) raws)))
          ∙ feed-blanks a raws [] w
  feed-members a (c ∷ cs) value_kind value between end t l hd w v =
      rw (member_step a c hd (some t) (some l) w) (
        feed-members a cs value_kind value between end (t ++ str c.text_of ∷ []) l hd w v
        ∙ rw (append_assoc t (str c.text_of ∷ []) (map (λ c. str c.text_of) cs)) refl)

  feed-append :
      (a : ℕ) (bs cs : List BufData) (w : World D)
      → feed env a (bs ++ cs) w ≡ bind (feed env a bs w) (λ _. feed env a cs)
  unfolding feed
  feed-append a [] cs w = refl
  feed-append a (b ∷ bs) cs w =
      after (deliver env a (Call.buffered b) w) (λ w'. feed-append a bs cs w')
    where
      after :
          (m : Out D Reply)
          → ((w' : World D)
              → feed env a (bs ++ cs) w' ≡ bind (feed env a bs w') (λ _. feed env a cs))
          → bind m (λ _. feed env a (bs ++ cs))
            ≡ bind (bind m (λ _. feed env a bs)) (λ _. feed env a cs)
      after (done r w') ih = ih w'
      after (panic message) ih = refl
      after Out.fault ih = refl

  feed-row :
      (a : ℕ) (r : Row D) (l : List Value) (hd : HandleData) (w : World D)
      → env.dtraceact_isagg r.value_kind ≡ true
      → feed env a (row_records probe member_kind r) (with_agg a hd none (some l) w)
        ≡ done tt (with_agg a hd none (some (l ++ row_values r)) w)
  unfolding feed row_records row_values
  feed-row a r l hd w v =
      feed-blanks a r.before _ (with_agg a hd none (some l) w)
      ∙ rw (member_step a r.first hd none (some l) w) (
          feed-members a r.others r.value_kind r.value r.between r.end (str r.first.text_of ∷ []) l
            hd w v)

  -- Between two rows the tuple is `NULL`; the rows that libdtrace prints are added to the list in order.
  feed-records :
      (a : ℕ) (rows : List (Row D)) (l : List Value) (hd : HandleData) (w : World D)
      → AreValues env rows
      → feed env a (records probe member_kind rows) (with_agg a hd none (some l) w)
        ≡ done tt (with_agg a hd none (some (l ++ all_values rows)) w)
  unfolding feed records all_values
  feed-records a [] l hd w v = rw (append-nil l) refl
  feed-records a (r ∷ rows) l hd w v =
      feed-append a (row_records probe member_kind r) (records probe member_kind rows)
        (with_agg a hd none (some l) w)
      ∙ rw (feed-row a r l hd w v.0) (
          feed-records a rows (l ++ row_values r) hd w v.1
          ∙ rw (append_assoc l (row_values r) (all_values rows)) refl)

  aggregations_handle-print :
      (command : Bytes) (a h : ℕ) (hd : HandleData) (w : World D)
      → lookup a w.heap ≡ some hd
      → hd.handle ≡ some h
      → aggregations_handle env command a w
        ≡ print_aggregations env command a h (with_agg a hd hd.agg.tuple (some []) w)
  unfolding aggregations_handle with_agg
  aggregations_handle-print command a h hd w e e' =
      rw (e, aggregations_handle)
        (rw (e, store)
          (rw (lookup-insert_self a _ w.heap, aggregations_handle)
            (rw (e', aggregations_handle) refl)))

  print_aggregations-rows :
      (command : Bytes) (a h : ℕ) (rows : List (Row D)) (hd : HandleData) (w : World D)
      → AreValues env rows
      → ((v : World D)
          → env.dtrace_aggregate_print h (deliver env a) v
            ≡ bind (feed env a (records probe member_kind rows) v) (λ _. pure true))
      → print_aggregations env command a h (with_agg a hd none (some []) w)
        ≡ done tcl_ok
            (record (with_agg a hd none none w) { result = list (values (all_values rows)) })
  unfolding print_aggregations with_agg
  print_aggregations-rows command a h rows hd w v prints =
      rw (prints (with_agg a hd none (some []) w), print_aggregations)
        (rw (feed-records a rows [] hd w v, print_aggregations) (printed (all_values rows)))
    where
      printed :
          (l : List Value)
          → bind (load a (with_agg a hd none (some l) w)) (λ after. do
            rows ← deref after.agg.list
            set_result (list (values rows))
            store a (record after { agg = record { tuple = after.agg.tuple; list = none } })
            pure tcl_ok)
            ≡ done tcl_ok (record (with_agg a hd none none w) { result = list (values l) })
      printed l =
          let new : HandleData = record hd { agg = record { tuple = none; list = some l } } in
          let last : HandleData = record hd { agg = record { tuple = none; list = none } } in
          let there = lookup-insert_self a new w.heap in
          rw (there, with_agg)
            (rw (there, with_agg, store) (rw (insert-insert a new last w.heap) refl))

  -- On an open handle with no tuple left over, where libdtrace prints the records of some rows, each
  -- with at least one member and a value of some aggregation, with white space before, between and
  -- after them, and all members and values texts that can be cut: Aggregations succeeds, and its
  -- result is the alternating list of the tuples, members in order, and the values, all cut.
  pub aggregations_handle-rows :
      (command : Bytes) (a h : ℕ) (rows : List (Row D)) (hd : HandleData) (w : World D)
      → AreValues env rows
      → lookup a w.heap ≡ some hd
      → hd.handle ≡ some h
      → hd.agg.tuple ≡ none
      → ((v : World D)
          → env.dtrace_aggregate_print h (deliver env a) v
            ≡ bind (feed env a (records probe member_kind rows) v) (λ _. pure true))
      → aggregations_handle env command a w
        ≡ done tcl_ok
            (record (with_agg a hd none none w) { result = list (values (all_values rows)) })
  aggregations_handle-rows command a h rows hd w v e e' fresh prints =
      aggregations_handle-print command a h hd w e e'
      ∙ ap (λ t. print_aggregations env command a h (with_agg a hd t (some []) w)) fresh
      ∙ print_aggregations-rows command a h rows hd w v prints
