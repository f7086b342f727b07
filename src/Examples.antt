-- ===== src/Examples.antt =====
-- Runs of the model of src/symbolTable.c and src/semanticAnalysis.c on small programs.
pub mod Tables
pub mod Programs
pub mod Codes
pub mod Sums
pub mod Compiled
pub mod Trees
