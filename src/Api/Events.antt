-- ===== src/Api/Events.antt =====
-- The structures of libdtrace's <dtrace.h> that its callbacks are handed, as far as they are read.
use tcldtrace.Prelude.{ℕ, Option, Bool, Bytes, ℤ}

-- `dtrace_probedesc_t`
pub record ProbeDesc : Type 0 where
  pub dtpd_id : ℤ
  pub dtpd_provider : Bytes
  pub dtpd_mod : Bytes
  pub dtpd_func : Bytes
  pub dtpd_name : Bytes

-- `dtrace_probedata_t`
pub record ProbeData : Type 0 where
  pub dtpda_pdesc : ProbeDesc
  pub dtpda_cpu : ℤ

-- `dtrace_actkind_t`: the kinds that the code names, and any other number.
pub data ActKind : Type 0 where
  difexpr printf printa ustack jstack stack : ActKind
  other : ℕ → ActKind

-- `dtrace_dropkind_t`
pub data DropKind : Type 0 where
  principal aggregation dynamic dynrinse dyndirty spec specbusy : DropKind
  specunavail stkstroverflow dblerror : DropKind
  other : ℕ → DropKind

-- `dtrace_bufdata_t`: the record description is read for its action only, the aggregation data only
-- tested for `NULL`.
pub record BufData : Type 0 where
  pub dtbda_probe : ProbeData
  pub dtbda_recdesc : Option ActKind
  pub dtbda_buffered : Bytes
  pub dtbda_aggdata : Bool

-- `dtrace_dropdata_t`
pub record DropData : Type 0 where
  pub dtdda_cpu : ℤ
  pub dtdda_kind : DropKind
  pub dtdda_drops : ℤ
  pub dtdda_msg : Bytes

-- `dtrace_errdata_t`
pub record ErrData : Type 0 where
  pub dteda_pdesc : ProbeDesc
  pub dteda_cpu : ℤ
  pub dteda_msg : Bytes

-- A statement of a program: the address of its enabling description, and the probe in that.
pub record StmtDesc : Type 0 where
  pub dtsd_ecbdesc : ℕ
  pub dted_probe : ProbeDesc

-- `dtrace_proginfo_t`
pub record ProgInfo : Type 0 where
  pub dpi_aggregates : ℤ
  pub dpi_recgens : ℤ
  pub dpi_matches : ℤ
  pub dpi_speculations : ℤ

-- One call that libdtrace makes of a function of the extension.
pub data Call : Type 0 where
  probe : ProbeData → Call
  record_of : ProbeData → Call
  buffered : BufData → Call
  dropped : DropData → Call
  erred : ErrData → Call
  process : ℤ → Bytes → Call

-- What such a function returns: `DTRACE_CONSUME_*`, `DTRACE_HANDLE_*`, or the 0 that goes on.
pub data Reply : Type 0 where
  consume_this consume_error handle_ok handle_abort zero_reply : Reply

-- What `dtrace_open` returns: a handle, or `NULL` with an error number.
pub data Opened : Type 0 where
  opened : ℕ → Opened
  failed : ℤ → Opened
