-- ===== src/SymbolTable.antt =====
-- The symbol table of src/symbolTable.c: its hash function, its operations, and the stack of scopes
-- that it stands for.
pub mod Hash
pub mod Defs
pub mod Scopes
pub mod Chains
pub mod Display
pub mod Top
pub mod Enter
pub mod Leave
pub mod Close
pub mod Spec
pub mod Refines
pub mod Blocks
