-- ===== src/Backend.antt =====
-- The back end: src/Address.h, src/Register.h, src/Register.cpp, src/gen-part.cpp and the expressions,
-- assignments and returns of src/codeGen.c.
pub mod Code
pub mod Spelling
pub mod State
pub mod Registers
pub mod Operations
pub mod Loads
pub mod Syscalls
pub mod Frame
pub mod Evict
pub mod Vacant
pub mod Allocation
pub mod Drawing
pub mod Flush
pub mod Fitting
pub mod Written
pub mod Machine
pub mod Entry
pub mod Exit
pub mod Saved
pub mod Opening
pub mod Roundtrip
pub mod Return
pub mod Arithmetic
pub mod Branches
pub mod Layout
pub mod Tree
pub mod Nodes
pub mod Elements
pub mod Expressions
pub mod Statements
pub mod Body
pub mod Generation
pub mod Labels
pub mod Quiet
pub mod Tags
pub mod Functions
pub mod Passing
