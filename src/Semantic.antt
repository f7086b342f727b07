-- ===== src/Semantic.antt =====
-- Semantic analysis, src/semanticAnalysis.c.
pub mod State
pub mod Fold
pub mod Operands
pub mod Calls
pub mod Variables
pub mod Expr
pub mod Prints
pub mod Dims
pub mod Declare
pub mod Stmt
pub mod Function
pub mod Runs
pub mod Initial
pub mod Effects
pub mod Typing
pub mod Bounds
pub mod Words
pub mod Growth
pub mod Rollback
pub mod Defined
