-- ===== src/Lib.antt =====
-- A verification library for the C-- compiler of this repository.
--
-- The compiler reads a program (src/lexer3.l, src/parser.y), builds a tree of `AST_NODE`s, checks it
-- (src/semanticAnalysis.c, with the symbol table of src/symbolTable.c), and generates MIPS assembly
-- (src/codeGen.c, src/Register.cpp). The library models the symbol table, the semantic analysis and
-- the code generation.
--
-- Prelude       names and lemmas that all parts share.
-- Effect        actions on a state that may have no result, and their postconditions.
-- SymbolTable   src/symbolTable.c. Hash is `HASH`. Defs has the table and its operations:
--               `retrieve_symbol`, `enter_symbol`, `remove_symbol`, `declared_locally`, `open_scope` and
--               `close_scope` are `retrieveSymbol` and so on. A chain of entries is a list, the scope
--               display a list of lists. Scopes has the invariant `IsValid`; Spec has a stack of
--               finite maps as the abstract table, with the `view` of a table as one; Refines relates
--               the two; Blocks is about sequences of operations with balanced scopes. Chains,
--               Display, Top, Enter, Leave and Close have the lemmas.
-- Types, Ast    the types of src/header.h and src/symbolTable.h, and the tree in the shapes that the
--               grammar builds. A node keeps the fields that semantic analysis writes.
-- Parser        the pointers of `AST_NODE` in a heap: `Allocate` of src/alloc.c, and `makeSibling`,
--               `makeChild` and `makeFamily` of src/parser.y. Chains is about lists of siblings in the
--               heap, Joined about `makeSibling`, Families about `makeChild`.
-- Semantic      src/semanticAnalysis.c. State has what it reads and writes besides the tree: the
--               table, the signatures, the messages and `g_anyErrorOccur`; a handler is a function of
--               the node and the state to the node and the state that it leaves, or to `none` where C
--               leaves the behaviour undefined. Fold is constant folding, Operands
--               `processExprNode`, Calls `checkFunctionCall`, Variables and Expr the names and
--               `processExprRelatedNode`, Dims and Declare the declarations, Stmt the statements,
--               Function `declareFunction` and `processProgramNode`, Initial
--               `initializeSymbolTable`. Handlers are named after the functions of the source.
--               Prints and Runs say what handlers do to the state, step by step; Effects,
--               Growth, Rollback, Defined, Typing and Bounds have the theorems, Words the order of
--               words.
-- Backend       src/Register.cpp, src/Register.h, src/Address.h, src/gen-part.cpp and
--               src/codeGen.c. Code is what they write, with `Address`; State is
--               `Register` and the state of the back end, Registers `RegisterSystem`, Operations
--               and Loads the methods `operand`, `branch` and `load` of `Register`, Syscalls
--               `genSyscall`, Frame `ARSystem`. Tree has the expressions as src/codeGen.c reads
--               them, Nodes the registers of nodes (`getTempReg`, `setRegister`), Elements
--               `getAddress`, Expressions and Statements the functions of src/codeGen.c for
--               expressions and statements, Body the statements and declarations as it reads them,
--               and Generation `genGeneralNode`, `genVariable`, `genDeclareNode` and `codeGen`.
--               Spelling is about the text of labels and the number at its end; Labels counts the
--               labels of `getTag` in the code by their text; Quiet is about the steps that
--               leave them alone, and Tags about all code. Functions has the shape of a
--               function's code, Passing the words of arguments and parameters. Evict, Vacant,
--               Allocation, Drawing, Flush
--               and Fitting are about registers being given away, stored and found; Written,
--               Entry and Exit about the code of a function's start and end; Layout about
--               variables in a frame. Machine specifies what the instructions do; Saved,
--               Opening, Roundtrip and Return run the start and the end of a function on it, Arithmetic
--               and Branches the code of operators.
-- Examples      the theorems at concrete tables, trees and states of the back end.
--
-- Every definition is total by structural recursion on the tree or on a list, and needs no fuel, but
-- for four: `findVacant` draws registers at random without end, so the model has a bound `tries` on
-- the draws, which is enough if one of them is a register that is not locked; `run_jumps` takes
-- the number of instructions it may run; the loops of src/parser.y over siblings take one step for
-- each sibling, and as much fuel is enough; and `decimal` writes a number with one step for each digit
-- and has one more than the number itself.
-- `int` is a word of 32 bits, and arithmetic that the compiler itself does wraps round. In the compiled
-- code `add`, `addi` and `sub` trap on a signed overflow. Labels are compared by the text that is
-- written. Names are unbounded, where the source copies them into `name[1024]`, and so are the
-- counters of labels, which the source keeps in an `int`. Floating-point arithmetic is a parameter
-- (`Fpu`), and so is what a read of the wrong member of a node's union yields (`Machine`).
-- `random` of the C library is a parameter (`Host`), as are the conversions between `int` and
-- `double`. The machine of the back end is a specification of the instructions by the MIPS manuals.
-- `malloc` is taken to succeed. The wording of messages is not modelled, only their kind and line.
-- The links `prevInHashChain` and `nextInHashChain` are not modelled as pointers. Not modelled either:
-- the lexer and the rules of the grammar, the drawing of trees (src/functions.c), and the copy of the SPIM
-- simulator in spim.
pub mod Prelude
pub mod Effect
pub mod SymbolTable
pub mod Types
pub mod Ast
pub mod Parser
pub mod Semantic
pub mod Backend
pub mod Examples
