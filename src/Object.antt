-- ===== src/Object.antt =====
-- Object files: src/dobj.c. The bytes of an object are numbers below 256.
pub mod Reader
pub mod Writer
pub mod Generate
pub mod Load
pub mod Reads
pub mod Texts
pub mod Definitions
pub mod Loads
pub mod Apart
pub mod Parts
pub mod Written
pub mod Whole
pub mod Lookup
pub mod Defaults
pub mod Pointers
pub mod Bodies
pub mod Variables
pub mod Sections
pub mod Definers
pub mod Includes
pub mod Resolve
pub mod Foreign
pub mod Reloaded
pub mod Ending
pub mod Definition
pub mod RoundTrip
pub mod Bounds
pub mod Inside
pub mod Guarded
pub mod Refusals
mod Tests
