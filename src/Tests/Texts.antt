-- ===== src/Tests/Texts.antt =====
-- The theorems about texts at concrete ones: trimming, a probe's description, the value of an option.
use tcldtrace.Prelude.{
  ◌≡◌, ◌≢◌, ◌⊎◌, ◌↔◌, ◌<◌, refl, [], ◌∷◌, Bytes, pos, negsuc, arith, text, length, replicate,
}
use tcldtrace.State.{str, HandleData, fault, zeroed}
use tcldtrace.Api.{ProbeDesc}
use tcldtrace.Text.{decimal}
use tcldtrace.Helpers.Format.{cut_white_space, tuple_strlen, format_probe_desc, joined}
use tcldtrace.Format.Probe.{split, IsPlain, format_probe_desc-split, format_probe_desc-truncates}
use tcldtrace.Format.Trim.{window, cut_white_space-fault_iff}
use tcldtrace.Format.Decimal.{read_decimal, read_decimal-decimal}
use tcldtrace.Tests.Setup.{probe_zero}
use tcldtrace.Tests.Runs.{opened_world}

cut_white_space-fault_iff_example :
    (cut_white_space (32 ∷ 32 ∷ []) opened_world ≡ fault)
    ↔ ((window (32 ∷ 32 ∷ []) ≡ []) ⊎ (length (window (32 ∷ 32 ∷ [])) ≡ tuple_strlen))
cut_white_space-fault_iff_example = cut_white_space-fault_iff (32 ∷ 32 ∷ []) opened_world

-- A handle whose descriptions are folded, and a probe with a long name.
abbrev folding_hd : HandleData
folding_hd = record zeroed { foldpdesc = pos 1 }

abbrev long_probe : ProbeDesc
long_probe = record probe_zero { dtpd_name = replicate 200 97 }

format_probe_desc-split_example :
    (t : Bytes) × (format_probe_desc folding_hd probe_zero ≡ str t)
    × (split t ≡ text "syscall" ∷ [] ∷ text "read" ∷ text "entry" ∷ [])
format_probe_desc-split_example = format_probe_desc-split folding_hd probe_zero refl plain fits
  where
    plain : IsPlain probe_zero
    plain =
        unfold text in
        record {
          provider = (refl, (refl, (refl, (refl, (refl, (refl, (refl, tt)))))));
          module_name = tt;
          function = (refl, (refl, (refl, (refl, tt))));
          name = (refl, (refl, (refl, (refl, (refl, tt)))));
        }

    fits : length (joined probe_zero) < 128
    fits = unfold joined text in omega arith

format_probe_desc-truncates_example :
    (t : Bytes) × (format_probe_desc folding_hd long_probe ≡ str t)
    × (length t ≡ 127)
    × (t ≢ joined long_probe)
format_probe_desc-truncates_example =
    format_probe_desc-truncates folding_hd long_probe refl (unfold joined text in omega arith)

read_decimal-decimal_example : read_decimal (decimal (negsuc 41)) ≡ negsuc 41
read_decimal-decimal_example = read_decimal-decimal (negsuc 41)
