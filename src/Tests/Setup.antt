-- ===== src/Tests/Setup.antt =====
-- A small environment to run the commands in: an interpreter whose objects carry their number with
-- them, and a libdtrace that has one handle, one program of one statement, and one row to print.
use tcldtrace.Prelude.{
  ℕ, ◌≡◌, refl, Bool, true, false, none, some, List, [], ◌∷◌, ◌++◌, Bytes, pos, text, ◌==◌, leb,
  if◌then◌else◌, arith,
}
use tcldtrace.State.{Obj, Value, given, str, int, list, parsed, refused, World, M, done, bind, pure}
use tcldtrace.Api.{
  Env, ActKind, ProbeDesc, ProbeData, BufData, StmtDesc, ProgInfo, Call, Reply, handle_abort,
  handle_ok, consume_this, consume_error, zero_reply, opened,
}
use tcldtrace.Helpers.Format.{skip_spaces, last_nonspace, cut_white_space}
use tcldtrace.Aggregation.{Cut, Row, records}
use tcldtrace.Prelude.{length, ltb, ◌<◌}
use tcldtrace.Safety.Scope.{Scope}
use tcldtrace.Safety.Invariant.{Post, Post-bind}
use tcldtrace.Safety.Laws.{Laws}

abbrev pub probe_zero : ProbeDesc
probe_zero = record {
  dtpd_id = pos 1;
  dtpd_provider = text "syscall";
  dtpd_mod = [];
  dtpd_func = text "read";
  dtpd_name = text "entry";
}

abbrev pub probe_data : ProbeData
probe_data = record { dtpda_pdesc = probe_zero; dtpda_cpu = pos 0 }

abbrev pub one_statement : StmtDesc
one_statement = record { dtsd_ecbdesc = 40; dted_probe = probe_zero }

-- "  a ", and what is cut out of it
abbrev pub padded : Bytes
padded = 32 ∷ 32 ∷ 97 ∷ 32 ∷ []

pub padded_cut : {D : Type 0} (w : World D) → cut_white_space padded w ≡ done (97 ∷ []) w
unfolding cut_white_space skip_spaces last_nonspace
padded_cut w = refl

abbrev pub one_cut : {D : Type 0} → Cut D
one_cut = record { raw = padded; text_of = 97 ∷ []; cuts = padded_cut }

-- Two rows with white space around them, and values of different aggregations.
abbrev pub one_row : {D : Type 0} → Row D
one_row = record {
  first = one_cut;
  others = one_cut ∷ [];
  value = one_cut;
  value_kind = ActKind.other 1;
  before = (32 ∷ []) ∷ [];
  between = [];
  end = (10 ∷ []) ∷ [];
}

abbrev pub other_row : {D : Type 0} → Row D
other_row = record one_row { value_kind = ActKind.other 2; before = []; between = (32 ∷ []) ∷ [] }

abbrev pub rows : {D : Type 0} → List (Row D)
rows = one_row ∷ other_row ∷ []

abbrev pub printed : List BufData
printed = records {D = List ℕ} probe_data ActKind.difexpr rows

abbrev goes_on : Reply → Bool
goes_on consume_this = true
goes_on consume_error = false
goes_on handle_ok = true
goes_on handle_abort = false
goes_on zero_reply = true

abbrev string_of : Value → Bytes
string_of (given o) = o.str
string_of (str s) = s
string_of (int n) = []
string_of (list l) = []

-- A script fails where the number of its command's name is above nine.
abbrev pub succeeds : List Value → Bool
succeeds [] = false
succeeds (given o ∷ words) = leb o.ident 9
succeeds (str s ∷ words) = true
succeeds (int n ∷ words) = true
succeeds (list l ∷ words) = true

abbrev is_aggregating : ActKind → Bool
is_aggregating (ActKind.other n) = true
is_aggregating ActKind.difexpr = false
is_aggregating ActKind.printf = false
is_aggregating ActKind.printa = false
is_aggregating ActKind.ustack = false
is_aggregating ActKind.jstack = false
is_aggregating ActKind.stack = false

abbrev pub serve : {D : Type 0} → (Call → M D Reply) → List BufData → M D (Unit {0})
serve call [] w = done tt w
serve call (b ∷ bs) w = bind (call (Call.buffered b) w) (λ _. serve call bs)

abbrev pub no_info : ProgInfo
no_info = record {
  dpi_aggregates = pos 0;
  dpi_recgens = pos 1;
  dpi_matches = pos 1;
  dpi_speculations = pos 0;
}

-- The state of this libdtrace is the list of the processes that it was told to continue.
abbrev pub env : Env (List ℕ)
env = record {
  get_string = string_of;
  get_int = λ o. parsed (pos o.ident);
  get_long = λ o. parsed (pos o.ident);
  get_boolean = λ o. parsed (o.ident == 1);
  get_elements = λ o. parsed (o ∷ o ∷ []);
  get_index = λ o table what. if ltb o.ident (length table) then parsed o.ident else refused what;
  wrong_num_args = λ objv arguments. arguments;
  eval_objv = λ objv w. done (succeeds objv) w;
  dtrace_o_nodev = 1;
  dtraceopt_unset = pos 99;
  dtraceact_isagg = is_aggregating;
  dtrace_open = λ flags d. (opened 7, d);
  dtrace_close = λ h d. d;
  dtrace_setopt = λ h name value d. (true, d);
  dtrace_getopt = λ h name d. none;
  dtrace_handle_err = λ h a d. (true, d);
  dtrace_handle_drop = λ h a d. (true, d);
  dtrace_handle_proc = λ h a d. (true, d);
  dtrace_handle_buffered = λ h a d. (true, d);
  dtrace_errno = λ h d. pos 0;
  dtrace_errmsg = λ h n d. [];
  dtrace_program_strcompile = λ h program arguments d. (some 20, d);
  dtrace_program_exec = λ h p d. (some no_info, d);
  dtrace_program_info = λ h p d. (no_info, d);
  dtrace_go = λ h d. (true, d);
  dtrace_stop = λ h d. (true, d);
  dtrace_sleep = λ h call w. done tt w;
  dtrace_proc_grab = λ h pid d. (some 30, d);
  dtrace_proc_create = λ h words d. (some 31, d);
  dtrace_proc_continue = λ h p d. d ++ p ∷ [];
  dtrace_work = λ h call w. bind (call (Call.probe probe_data) w) (λ r. pure (goes_on r));
  dtrace_aggregate_print = λ h call w. bind (serve call printed w) (λ _. pure true);
  dtrace_stmt_iter = λ h p call last. call one_statement last;
  dtrace_probe_iter = λ h d call w. bind (call d w) (λ r. pure (goes_on r));
}

-- What is served to a function that keeps a predicate keeps it.
serve_keeps :
    (s : Scope) (call : Call → M (List ℕ) Reply) (P : World (List ℕ) → Type 0)
    → ((c : Call) (w : World (List ℕ)) → P w → Post s (λ _. P) (call c w))
    → (bs : List BufData) (w : World (List ℕ)) → P w
    → Post s (λ _. P) (serve call bs w)
serve_keeps s call P keeps [] w p = p
serve_keeps s call P keeps (b ∷ bs) w p =
    Post-bind s (λ _. P) (λ _. P) (call (Call.buffered b) w) (λ _. serve call bs) (keeps _ w p)
      (λ _ v q. serve_keeps s call P keeps bs v q)

-- The hypotheses on the environment hold of this one.
pub laws : Laws env
laws = record {
  sleep_keeps = λ h s call P own keeps w p. p;
  work_keeps = λ h s call P own keeps w p.
      Post-bind s (λ _. P) (λ _. P) (call (Call.probe probe_data) w) _ (keeps _ w p) (λ r v q. q);
  print_keeps = λ h s call P own keeps w p.
      Post-bind s (λ _. P) (λ _. P) (serve call printed w) _
        (serve_keeps s call P keeps printed w p) (λ r v q. q);
  stmt_iter_keeps = λ s h program call last P own keeps w p. keeps one_statement last w p;
  probe_iter_keeps = λ s h pdesc call P own keeps w p.
      Post-bind s (λ _. P) (λ _. P) (call pdesc w) _ (keeps pdesc w p) (λ r v q. q);
  index_within = λ o table what k e. within o table what k e;
}
  where
    within :
        (o : Obj) (table : List Bytes) (what : Bytes) (k : ℕ)
        → env.get_index o table what ≡ parsed k
        → k < length table
    within o table what k e = ground arith
