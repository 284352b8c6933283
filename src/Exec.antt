-- ===== src/Exec.antt =====
-- Effects. A call takes the state of the world and gives back its result and the new state, also
-- after an error (`anyhow::Result`). What the components call outside of the repository is a record
-- of operations, and the development takes it as a parameter.
mod Base
pub mod Platform
pub mod Keeps
pub mod Returns
pub use Base.*
pub use Platform.*
