-- ===== src/Api.antt =====
-- What the extension is built on and does not implement: the Tcl library and libdtrace. Both are the
-- one parameter `Env` of the model.
mod Events
mod Interface
pub use Events.*
unfoldable pub use Interface.*
