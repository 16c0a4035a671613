-- ===== src/State.antt =====
-- The state of the extension (generic/dtrace.h) and of the interpreter it is loaded in, and the
-- monad in which the commands of generic/dtrace.c are written.
mod Objects
mod Records
mod Monad
pub use Objects.*
pub use Records.*
unfoldable pub use Monad.*
