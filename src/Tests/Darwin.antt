-- ===== src/Tests/Darwin.antt =====
-- The names of the processor types with the values of <mach/machine.h>.
use tcldtrace.Prelude.{◌≡◌, ◌≢◌, ◌↔◌, refl, some, pos, text, true}
use tcldtrace.Darwin.{
  CpuTypes, IsDistinct, string_for_arch, arch_for_string, needs_swapping,
  string_for_arch-arch_for_string,
}

abbrev mach_types : CpuTypes
mach_types = record {
  i386 = pos 7;
  x86_64 = pos 16777223;
  powerpc = pos 18;
  powerpc64 = pos 16777234;
}

mach_types-IsDistinct : IsDistinct mach_types
mach_types-IsDistinct = record {
  second = refl;
  third = (refl, refl);
  fourth = (refl, refl, refl);
  nonzero = (λ e. cc, λ e. cc, λ e. cc, λ e. cc);
}

swaps : needs_swapping mach_types (pos 7) (pos 18) ≡ true
unfolding needs_swapping
swaps = refl

string_for_arch-arch_for_string_example :
    (string_for_arch mach_types (pos 18) ≡ some (text "ppc"))
    ↔ ((arch_for_string mach_types (text "ppc") ≡ pos 18) × (pos 18 ≢ pos 0))
string_for_arch-arch_for_string_example =
    string_for_arch-arch_for_string mach_types mach_types-IsDistinct (pos 18) (text "ppc")
