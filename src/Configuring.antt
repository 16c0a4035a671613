-- ===== src/Configuring.antt =====
-- generic/dtrace.c, Configure: what a script reads of the options that it set.
pub mod Sequence
use tcldtrace.Prelude.{eq_ℤ, false, ℤ, bytes_eq, pos}
use tcldtrace.State.{list, values}
use tcldtrace.Text.{snprintf, decimal}
use tcldtrace.Helpers.Options.{get_library_option, shown}
use tcldtrace.Commands.Configure.{basic_options, get_options, configure_all}
