-- ===== src/Semantic/Runs/Facts.antt =====
-- What a run of semantic analysis (src/semanticAnalysis.c) keeps.
use ntu_csie_complier.Prelude.{Bool, true, false, List, [], ◌∷◌, ◌++◌, ◌≡◌, refl, ◌∙◌, ap}
use ntu_csie_complier.SymbolTable.Scopes.{IsValid}
use ntu_csie_complier.SymbolTable.Spec.{view}
use ntu_csie_complier.SymbolTable.Blocks
use ntu_csie_complier.SymbolTable.Blocks.{Balanced, Kept, Balanced-Kept, block-Kept}
use ntu_csie_complier.SymbolTable.Refines.{open_scope-view}
use ntu_csie_complier.Semantic.State.{State, Message, print_error_msg}
use ntu_csie_complier.Semantic.Prints.{Prints, quiet}
use ntu_csie_complier.Semantic.Stmt.{enter_block}
use ntu_csie_complier.Semantic.Runs.{
  Run, Reach, inner, start, printed, entered, removed, signed, block,
}

pub Run-Balanced : {r : Reach} {s t : State} → Run r s t → Balanced s.table t.table
unfolding enter_block print_error_msg
Run-Balanced start = Blocks.done
Run-Balanced (printed line kind p) = Run-Balanced p
Run-Balanced (entered name a p) = Blocks.entered name a (Run-Balanced p)
Run-Balanced (removed name p) = Blocks.removed name (Run-Balanced p)
Run-Balanced (signed x p) = Run-Balanced p
Run-Balanced (block p body e) = Blocks.block (Run-Balanced p) (Run-Balanced body) e

pub Run-Kept : {r : Reach} {s t : State} → Run r s t → IsValid s.table → Kept s.table t.table
Run-Kept p = Balanced-Kept (Run-Balanced p)

-- A table that is valid and has the scopes of another.
pub record SameScopes (s t : State) : Type 0 where
  pub valid : IsValid t.table
  pub same_view : view t.table ≡ view s.table
  pub same_level : t.table.current_level ≡ s.table.current_level

pub inner-SameScopes : {s t : State} → Run inner s t → IsValid s.table → SameScopes s t
unfolding enter_block print_error_msg
inner-SameScopes start v = record { valid = v; same_view = refl; same_level = refl }
inner-SameScopes (printed line kind p) v =
    let k = inner-SameScopes p v in
    record { valid = k.valid; same_view = k.same_view; same_level = k.same_level }
inner-SameScopes (block {t} p body e) v =
    let k = inner-SameScopes p v in
    let (valid, same, level) =
      block-Kept k.valid (Run-Kept body (open_scope-view t.table k.valid).0) e in
    record { valid = valid; same_view = same ∙ k.same_view; same_level = level ∙ k.same_level }

-- Whether there is a message.
unfoldable pub is_nonempty : List Message → Bool
is_nonempty [] = false
is_nonempty (x ∷ xs) = true

abbrev pub Reported : State → Type 0
Reported s = s.any_error_occur ≡ is_nonempty s.messages

pub Run-Reported : {r : Reach} {s t : State} → Run r s t → Reported s → Reported t
unfolding enter_block print_error_msg is_nonempty
Run-Reported start h = h
Run-Reported (printed line kind p) h = refl
Run-Reported (entered name a p) h = Run-Reported p h
Run-Reported (removed name p) h = Run-Reported p h
Run-Reported (signed x p) h = Run-Reported p h
Run-Reported (block p body e) h = Run-Reported body (Run-Reported p h)

-- What `printErrorMsg` adds to.
pub record OnlyMessages (s t : State) : Type 0 where
  pub same_table : t.table ≡ s.table
  pub same_signatures : t.signatures ≡ s.signatures
  pub new_messages : List Message
  pub extends : t.messages ≡ new_messages ++ s.messages

pub Prints-OnlyMessages : {s t : State} → Prints s t → OnlyMessages s t
unfolding print_error_msg
Prints-OnlyMessages quiet = record {
  same_table = refl;
  same_signatures = refl;
  new_messages = [];
  extends = refl;
}
Prints-OnlyMessages (Prints.printed line kind p) =
    let k = Prints-OnlyMessages p in
    let x : Message = record { linenumber = line; kind = kind } in
    record {
      same_table = k.same_table;
      same_signatures = k.same_signatures;
      new_messages = x ∷ k.new_messages;
      extends = ap (λ (xs : List Message). x ∷ xs) k.extends;
    }
