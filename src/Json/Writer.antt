-- ===== src/Json/Writer.antt =====
-- Whole documents through the writer of src/json.c: the calls that db.c makes for a tree, and the
-- text that they leave.
pub mod Steps
pub mod Members
pub mod Trees
pub mod Styles
pub use Steps.*
pub use Members.*
pub use Trees.*
pub use Styles.*
