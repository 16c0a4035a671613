-- ===== src/Format/Probe.antt =====
-- generic/dtrace.c, formatProbeDesc: what a script can read back from a probe's description.
use tcldtrace.Prelude.{
  ℕ, ◌≤◌, ◌<◌, ◌≡◌, refl, ◌≢◌, true, false, List, [], ◌∷◌, ◌++◌, Bytes, arith, ◌==◌, if◌then◌else◌,
  length, take, take_all, length-take, ◌∙◌, ap,
}
use tcldtrace.State.{str, HandleData}
use tcldtrace.Api.{ProbeDesc}
use tcldtrace.Text.{snprintf}
use tcldtrace.Helpers.Format.{format_probe_desc, joined, nonzero}

-- One byte in front of the first field.
push : ℕ → List Bytes → List Bytes
push c [] = (c ∷ []) ∷ []
push c (field ∷ fields) = (c ∷ field) ∷ fields

-- The fields between the colons of a text.
pub split : Bytes → List Bytes
unfolding push
split [] = [] ∷ []
split (c ∷ cs) = let fields = split cs in if c == b':' then [] ∷ fields else push c fields

abbrev pub NoColon : Bytes → Type 0
NoColon [] = Unit
NoColon (c ∷ cs) = ((c == b':') ≡ false) × NoColon cs

split-append : (s rest : Bytes) → NoColon s → split (s ++ b':' ∷ rest) ≡ s ∷ split rest
unfolding split push
split-append [] rest n = refl
split-append (c ∷ cs) rest n = rw n.0 (ap (push c) (split-append cs rest n.1))

split_last : (s : Bytes) → NoColon s → split s ≡ s ∷ []
unfolding split push
split_last [] n = refl
split_last (c ∷ cs) n = rw n.0 (ap (push c) (split_last cs n.1))

-- A probe whose four names hold no colon.
pub record IsPlain (d : ProbeDesc) : Type 0 where
  pub provider : NoColon d.dtpd_provider
  pub module_name : NoColon d.dtpd_mod
  pub function : NoColon d.dtpd_func
  pub name : NoColon d.dtpd_name

-- Folded, a description of less than 128 bytes, with no colon in its four names, is split at its
-- colons into the four names again.
pub format_probe_desc-split :
    (hd : HandleData) (d : ProbeDesc)
    → nonzero hd.foldpdesc ≡ true
    → IsPlain d
    → length (joined d) < 128
    → (t : Bytes) × (format_probe_desc hd d ≡ str t)
      × (split t ≡ d.dtpd_provider ∷ d.dtpd_mod ∷ d.dtpd_func ∷ d.dtpd_name ∷ [])
unfolding format_probe_desc snprintf joined
format_probe_desc-split hd d fold plain fits = (
  joined d,
  rw fold (ap str (take_all 127 (joined d) (omega arith))),
  split-append d.dtpd_provider _ plain.provider
      ∙ ap (◌∷◌ d.dtpd_provider) (
          split-append d.dtpd_mod _ plain.module_name
          ∙ ap (◌∷◌ d.dtpd_mod) (
              split-append d.dtpd_func _ plain.function
              ∙ ap (◌∷◌ d.dtpd_func) (split_last d.dtpd_name plain.name))),
)

-- Folded, a description of 128 bytes or more becomes a text of 127 bytes, which is not the
-- description.
pub format_probe_desc-truncates :
    (hd : HandleData) (d : ProbeDesc)
    → nonzero hd.foldpdesc ≡ true
    → 128 ≤ length (joined d)
    → (t : Bytes) × (format_probe_desc hd d ≡ str t) × (length t ≡ 127) × (t ≢ joined d)
unfolding format_probe_desc snprintf
format_probe_desc-truncates hd d fold long = (
  take 127 (joined d),
  rw fold,
  omega (arith, length-take 127 (joined d)),
  λ e. absurd (omega (arith, ap length e, length-take 127 (joined d))),
)
