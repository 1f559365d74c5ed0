-- ===== src/Commands/Handlers.antt =====
-- The handlers of src/common/vsftp_commands.c. An argument and its length are one list; a handler
-- that is called with `NULL` gets the empty one.
pub mod Session
pub mod Files
pub mod Folders
unfoldable pub use Session.*
unfoldable pub use Files.*
unfoldable pub use Folders.*
