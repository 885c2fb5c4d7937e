-- ===== src/Python.antt =====
-- The parts of Python that the modelled code stands on: floats as an interface, the values that a
-- YAML or JSON document holds, and exceptions as results.
--
-- A float is a value of a type F with the operations that the code calls; their documented laws are
-- named where a theorem needs them. An exception is modelled by the statement that raises it.
mod Floats
mod Values
mod Errors
mod Texts
pub mod Hundredths
pub use Floats.*
pub use Values.*
pub use Errors.*
unfoldable pub use Texts.*
