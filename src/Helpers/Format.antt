-- ===== src/Helpers/Format.antt =====
-- generic/dtrace.c: bufType, dropKind, formatProbeDesc and cutWhiteSpace.
use tcldtrace.Prelude.{
  ℕ, suc, Bool, Option, none, some, [], ◌∷◌, ◌++◌, Bytes, ℤ, pos, negsuc, text, ltb, ◌==◌,
  if◌then◌else◌, take,
}
use tcldtrace.State.{Value, str, list, values, HandleData, M, pure, undefined}
use tcldtrace.Api.{ActKind, DropKind, ProbeDesc}
use tcldtrace.Text.{snprintf}

-- `bufType`, without the `Tcl_NewStringObj` around its literals
unfoldable pub buf_type : ActKind → Bytes
buf_type ActKind.difexpr = text "DIFEXPR"
buf_type ActKind.printf = text "PRINTF"
buf_type ActKind.printa = text "PRINTA"
buf_type ActKind.ustack = text "USTACK"
buf_type ActKind.jstack = text "JSTACK"
buf_type ActKind.stack = text "STACK"
buf_type (ActKind.other n) = text "UNKNOWN"

-- `dropKind`, likewise
unfoldable pub drop_kind : DropKind → Bytes
drop_kind DropKind.principal = text "PRINCIPAL"
drop_kind DropKind.aggregation = text "AGGREGATION"
drop_kind DropKind.dynamic = text "DYNAMIC"
drop_kind DropKind.dynrinse = text "DYNRINSE"
drop_kind DropKind.dyndirty = text "DYNDIRTY"
drop_kind DropKind.spec = text "SPEC"
drop_kind DropKind.specbusy = text "SPECBUSY"
drop_kind DropKind.specunavail = text "SPECUNAVAIL"
drop_kind DropKind.stkstroverflow = text "STKSTROVERFLOW"
drop_kind DropKind.dblerror = text "DBLERROR"
drop_kind (DropKind.other n) = text "UNKNOWN"

-- A C `int` as a condition.
abbrev pub nonzero : ℤ → Bool
nonzero (pos n) = ltb 0 n
nonzero (negsuc n) = Bool.true

-- The four fields of a probe joined by colons, `%s:%s:%s:%s`.
unfoldable pub joined : ProbeDesc → Bytes
joined d = d.dtpd_provider ++ b':' ∷ (d.dtpd_mod ++ b':' ∷ (d.dtpd_func ++ b':' ∷ d.dtpd_name))

-- `formatProbeDesc`: the array `name` has 128 bytes.
unfoldable pub format_probe_desc : HandleData → ProbeDesc → Value
unfolding joined
format_probe_desc hd d =
    if nonzero hd.foldpdesc
    then str (snprintf 128 (joined d))
    else list
        (values (str d.dtpd_provider ∷ str d.dtpd_mod ∷ str d.dtpd_func ∷ str d.dtpd_name ∷ []))

-- `TUPLE_STRLEN`, and the byte of a space
abbrev pub tuple_strlen : ℕ
tuple_strlen = 128

abbrev pub space : ℕ
space = 32

-- The first loop of `cutWhiteSpace`: `while (*source == ' ') source++`.
unfoldable pub skip_spaces : Bytes → Bytes
skip_spaces [] = []
skip_spaces (c ∷ cs) = if c == space then skip_spaces cs else c ∷ cs

-- Its second loop, at the index `i`: the value of `size`, which starts out unset.
unfoldable pub last_nonspace : ℕ → Option ℕ → Bytes → Option ℕ
last_nonspace i size [] = size
last_nonspace i size (c ∷ cs) =
    let rest = last_nonspace (suc i) (if c == space then size else some i) cs in
    if ltb i tuple_strlen then rest else size

-- `cutWhiteSpace`. An unset `size` is an undefined value, and `buf[++size] = 0` must fall inside the
-- buffer; the string then has `size` bytes of those copied.
unfoldable pub cut_white_space : {D : Type 0} → Bytes → M D Bytes
unfolding skip_spaces last_nonspace
cut_white_space csource =
    let source = skip_spaces csource in
    elim (last_nonspace 0 none source) [
      | none ↦ undefined
      | some size ↦ if ltb (suc size) tuple_strlen then pure (take (suc size) source) else undefined
    ]
