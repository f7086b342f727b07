-- ===== src/Backend/Nodes.antt =====
-- The registers of nodes: `setRegister` and `getTempReg` of src/Register.cpp.
use ntu_csie_complier.Prelude.{ℕ, Bool, true, false, not, Option, none, some, ◌==◌, if◌then◌else◌}
use ntu_csie_complier.Effect.{Action, pure, ◌>>=◌, ◌>>◌, modify}
use ntu_csie_complier.Types.{DataType}
use ntu_csie_complier.Backend.Code.{Address, Instr}
use ntu_csie_complier.Backend.State.{GenState, Gen, Host, emit, set_target_node, set_target_address}
use ntu_csie_complier.Backend.Registers.{get_reg, get_fit, fits_node, lock}
use ntu_csie_complier.Backend.Loads.{load_address}
use ntu_csie_complier.Backend.Frame.{ArSystem}

-- `node_reg` is the field `reg` of a node, `arr_variable` is `arrVariable`.
pub record Coder : Type 0 where
  pub gen : GenState
  pub ar : ArSystem
  pub node_reg : ℕ → Option ℕ
  pub arr_variable : ℕ → Option Address

abbrev pub Code : Type 0 → Type 0
Code A = Action Coder A

abbrev pub put_gen : {A : Type 0} → Coder → Option (A × GenState) → Option (A × Coder)
put_gen s none = none
put_gen s (some (a, g)) = some (a, record s { gen = g })

abbrev pub on_gen : {A : Type 0} → Gen A → Code A
on_gen m s = put_gen s (m s.gen)

abbrev pub write : Instr → Code (Unit {0})
write i = on_gen (modify (emit i))

abbrev pub set_lock : ℕ → Bool → Code (Unit {0})
set_lock r l = on_gen (modify (lock r l))

unfoldable pub set_node_reg : ℕ → ℕ → Code (Unit {0})
set_node_reg node r s =
    some (tt, record s { node_reg = λ k. if k == node then some r else s.node_reg k })

-- `option`
pub record Options : Type 0 where
  pub is_caller : Bool
  pub is_disable_load : Bool

abbrev pub no_option : Options
no_option = record { is_caller = false; is_disable_load = false }

abbrev pub force_caller : Options
force_caller = record { is_caller = true; is_disable_load = false }

abbrev pub disable_load : Options
disable_load = record { is_caller = false; is_disable_load = true }

abbrev pub when : Bool → Code (Unit {0}) → Code (Unit {0})
when true m = m
when false m = pure tt

abbrev pub kept : Coder → ℕ → Option ℕ → Option ℕ
kept s node none = none
kept s node (some r) = if fits_node s.gen node r then some r else none

module _ (host : Host) where
  -- `setRegister` of an identifier, whose address is found again, and of another node.
  unfoldable pub set_register_id : ℕ → Code Address → ℕ → Bool → Code (Unit {0})
  unfolding load_address set_target_address set_node_reg
  set_register_id node address r is_loaded = do
    set_node_reg node r
    a ← address
    when is_loaded (on_gen (load_address host r a))
    on_gen (modify (set_target_address r a))

  -- The search of `getTempReg` for a register that holds the variable, or a new one.
  unfoldable pub new_temp_id : DataType → ℕ → Code Address → Options → Code ℕ
  unfolding get_reg set_register_id
  new_temp_id t node address o = do
    r ← on_gen (get_reg host t o.is_caller)
    set_register_id node address r (not o.is_disable_load)
    pure r

  abbrev pub fit_or_new : DataType → ℕ → Code Address → Options → Option ℕ → Code ℕ
  fit_or_new t node address o (some r) = set_node_reg node r >> pure r
  fit_or_new t node address o none = new_temp_id t node address o

  abbrev pub find_temp_id : DataType → ℕ → Code Address → Options → Code ℕ
  find_temp_id t node address o = do
    a ← address
    λ s. fit_or_new t node address o (get_fit a s.gen) s

  abbrev pub keep_or : Code ℕ → Option ℕ → Code ℕ
  keep_or m (some r) = pure r
  keep_or m none = m

  -- `getTempReg` of an identifier of a variable, given `getAddress` of it.
  unfoldable pub temp_id : DataType → ℕ → Code Address → Options → Code ℕ
  unfolding new_temp_id set_node_reg get_fit fits_node
  temp_id t node address o s =
      keep_or (find_temp_id t node address o) (kept s node (s.node_reg node)) s

  -- `getTempReg` of another node, which has no variable.
  unfoldable pub new_temp : DataType → ℕ → Options → Code ℕ
  unfolding get_reg set_node_reg set_target_node
  new_temp t node o = do
    r ← on_gen (get_reg host t o.is_caller)
    set_node_reg node r
    on_gen (modify (set_target_node r node))
    pure r

  unfoldable pub temp_node : DataType → ℕ → Options → Code ℕ
  unfolding new_temp fits_node
  temp_node t node o s = keep_or (new_temp t node o) (kept s node (s.node_reg node)) s
