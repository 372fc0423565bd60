-- ===== src/Vm.antt =====
-- The virtual machine of src/dvm.c and src/dvm.h.
pub mod Opcode
pub mod State
pub mod Stack
pub mod Memory
pub mod Host
pub mod Macros
pub mod Calls
pub mod Step
pub mod Run
pub mod Valid
pub mod Frames
pub mod Operators
pub mod Samples
mod Tests
