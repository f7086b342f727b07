-- ===== src/Backend/Tags/Nodes.antt =====
-- The registers of nodes (`setRegister` and `getTempReg` of src/Register.cpp).
use ntu_csie_complier.Prelude.{ℕ, Bool, true, false, not, Option, none, some, if◌then◌else◌, refl}
use ntu_csie_complier.Effect.{pure, modify}
use ntu_csie_complier.Effect.Post.{returns}
use ntu_csie_complier.Types.{DataType}
use ntu_csie_complier.Backend.Code.{Label, Address}
use ntu_csie_complier.Backend.State.{GenState, Host}
use ntu_csie_complier.Backend.Registers.{get_fit, lock, get_reg}
use ntu_csie_complier.Backend.Loads.{load_address}
use ntu_csie_complier.Backend.Quiet.{Quiet}
use ntu_csie_complier.Backend.Quiet.Steps.{
  lock-Quiet, set_target_node-Quiet, set_target_address-Quiet,
}
use ntu_csie_complier.Backend.Quiet.Rules.{modify-Silent}
use ntu_csie_complier.Backend.Quiet.Loads.{load_address-Silent}
use ntu_csie_complier.Backend.Quiet.Operations.{get_reg-Silent}
use ntu_csie_complier.Backend.Nodes.{
  Code, on_gen, set_lock, set_node_reg, Options, when, kept, set_register_id, new_temp_id,
  fit_or_new, find_temp_id, keep_or, temp_id, new_temp, temp_node,
}
use ntu_csie_complier.Backend.Tags.{Balanced, ◌▸◌, on_gen-Balanced, unchanged-Step}

module _ (l : Label) (i : ℕ) where
  pub pure-Balanced : {A : Type 0} (a : A) → Balanced l i 0 0 (pure a)
  pure-Balanced a s = returns (unchanged-Step l i s s refl refl refl refl)

  pub modify-Balanced :
      (f : GenState → GenState)
      → ((s : GenState) → Quiet l s (f s))
      → Balanced l i 0 0 (on_gen (modify f))
  modify-Balanced f h = on_gen-Balanced l i (modify f) (modify-Silent l f h)

  pub set_lock-Balanced : (r : ℕ) (b : Bool) → Balanced l i 0 0 (set_lock r b)
  set_lock-Balanced r b = modify-Balanced (lock r b) (lock-Quiet l r b)

  pub set_node_reg-Balanced : (node r : ℕ) → Balanced l i 0 0 (set_node_reg node r)
  unfolding set_node_reg
  set_node_reg-Balanced node r s = returns (unchanged-Step l i s _ refl refl refl refl)

  pub when-Balanced :
      (b : Bool) (m : Code (Unit {0})) → Balanced l i 0 0 m → Balanced l i 0 0 (when b m)
  when-Balanced true m h = h
  when-Balanced false m h = pure-Balanced tt

  pub choice-Balanced :
      {A : Type 0} {d u : ℕ} (b : Bool) (m k : Code A)
      → Balanced l i d u m
      → Balanced l i d u k
      → Balanced l i d u (if b then m else k)
  choice-Balanced true m k h h' = h
  choice-Balanced false m k h h' = h'

  keep_or-Balanced :
      (host : Host) (m : Code ℕ) (o : Option ℕ)
      → Balanced l i 0 0 m
      → Balanced l i 0 0 (keep_or host m o)
  keep_or-Balanced host m none h = h
  keep_or-Balanced host m (some r) h = pure-Balanced r

  module _ (host : Host) where
    pub get_reg-Balanced :
        (t : DataType) (is_caller : Bool) → Balanced l i 0 0 (on_gen (get_reg host t is_caller))
    get_reg-Balanced t is_caller = on_gen-Balanced l i _ (get_reg-Silent l host t is_caller)

    pub load_address-Balanced :
        (r : ℕ) (a : Address) → Balanced l i 0 0 (on_gen (load_address host r a))
    load_address-Balanced r a = on_gen-Balanced l i _ (load_address-Silent l host r a)

    module _ (t : DataType) (node : ℕ) (o : Options) where
      new_temp-Balanced : Balanced l i 0 0 (new_temp host t node o)
      unfolding new_temp
      new_temp-Balanced = get_reg-Balanced t o.is_caller ▸ λ r. set_node_reg-Balanced node r ▸ λ _.
          modify-Balanced _ (set_target_node-Quiet l r node) ▸ λ _. pure-Balanced r

      pub temp_node-Balanced : Balanced l i 0 0 (temp_node host t node o)
      unfolding temp_node
      temp_node-Balanced s =
          keep_or-Balanced host (new_temp host t node o) (kept s node (s.node_reg node))
            new_temp-Balanced s

      module _ (address : Code Address) (h : Balanced l i 0 0 address) where
        set_register_id-Balanced :
            (r : ℕ) (b : Bool) → Balanced l i 0 0 (set_register_id host node address r b)
        unfolding set_register_id
        set_register_id-Balanced r b = set_node_reg-Balanced node r ▸ λ _. h ▸ λ a.
            when-Balanced b _ (load_address-Balanced r a) ▸ λ _.
            modify-Balanced _ (set_target_address-Quiet l r a)

        new_temp_id-Balanced : Balanced l i 0 0 (new_temp_id host t node address o)
        unfolding new_temp_id
        new_temp_id-Balanced = get_reg-Balanced t o.is_caller ▸ λ r.
            set_register_id-Balanced r (not o.is_disable_load) ▸ λ _. pure-Balanced r

        fit_or_new-Balanced : (f : Option ℕ) → Balanced l i 0 0 (fit_or_new host t node address o f)
        fit_or_new-Balanced none = new_temp_id-Balanced
        fit_or_new-Balanced (some r) = set_node_reg-Balanced node r ▸ λ _. pure-Balanced r

        find_temp_id-Balanced : Balanced l i 0 0 (find_temp_id host t node address o)
        find_temp_id-Balanced = h ▸ λ a s. fit_or_new-Balanced (get_fit a s.gen) s

        pub temp_id-Balanced : Balanced l i 0 0 (temp_id host t node address o)
        unfolding temp_id
        temp_id-Balanced s =
            keep_or-Balanced host (find_temp_id host t node address o)
              (kept s node (s.node_reg node)) find_temp_id-Balanced s
