-- ===== src/Backend/Tags.antt =====
-- How src/codeGen.c defines the labels that `getTag` of src/Register.cpp gives out, and goes to them. The
-- labels of the routines for global variables are counted where `main` will define them.
pub mod Nodes
pub mod Addresses
pub mod Constants
pub mod Binary
pub mod Expressions
pub mod Statements
pub mod Declarations
pub mod Blocks
pub mod Frames
pub mod Programs
use ntu_csie_complier.Prelude.{
  ℕ, zero, suc, ◌+◌, ◌≤◌, Bool, true, false, Option, none, some, String, List, [], ◌∷◌, ◌++◌,
  if◌then◌else◌, leb, ltb, ◌≡◌, refl, arith, ap, sym, ◌∙◌, subst,
}
use ntu_csie_complier.Effect.{pure, ◌>>=◌, ◌>>◌, modify}
use ntu_csie_complier.Effect.Post.{Post, faults, returns, bind, weaken}
use ntu_csie_complier.Backend.Code.{Label, Instr, tagged}
use ntu_csie_complier.Backend.Spelling.{IsPlain}
use ntu_csie_complier.Backend.State.{GenState, Gen, emit}
use ntu_csie_complier.Backend.Labels.{matches, defined, used, total, total-snoc, between}
use ntu_csie_complier.Backend.Operations.{word_of}
use ntu_csie_complier.Backend.Frame.{ArSystem, get_tag}
use ntu_csie_complier.Backend.Quiet.{
  Quiet, Grows, Grows-refl, Grows-trans, definitions, uses, Quiet-refl,
}
use ntu_csie_complier.Backend.Quiet.Rules.{Silent}
use ntu_csie_complier.Backend.Expressions.{new_tag}
use ntu_csie_complier.Backend.Nodes.{Coder, Code, on_gen, put_gen, write}

-- The labels of the routines that `main` defines, and that it goes to.
unfoldable pub ends : Label → List (Label × Label) → ℕ
ends l [] = 0
ends l ((start, end) ∷ routines) = matches end l + ends l routines

unfoldable pub starts : Label → List (Label × Label) → ℕ
starts l [] = 0
starts l ((start, end) ∷ routines) = matches start l + starts l routines

module _ (l : Label) where
  abbrev pub all_definitions : Coder → ℕ
  all_definitions s = definitions l s.gen + ends l s.ar.init_routine

  abbrev pub all_uses : Coder → ℕ
  all_uses s = uses l s.gen + starts l s.ar.init_routine

  module _ (i : ℕ) where
    -- Besides `d` definitions and `u` uses, a step defines a label that ends in the number `i` at most
    -- once, and only if it hands that counter out, where the name of the function does not end in a
    -- digit; and it goes to the label only if it defines it.
    pub record Balance (d u : ℕ) (s t : Coder) : Type 0 where
      pub grows : Grows s.gen t.gen
      pub tags : s.ar.tag_index ≤ t.ar.tag_index
      pub plain : IsPlain s.ar.func_name → IsPlain t.ar.func_name
      pub at_most :
          IsPlain s.ar.func_name
          → all_definitions t ≤ all_definitions s + d + between s.ar.tag_index t.ar.tag_index i
      pub at_least : all_definitions s + d ≤ all_definitions t
      pub resolved : all_definitions t ≡ all_definitions s + d → all_uses t ≡ all_uses s + u

    between_trans : (a b c : ℕ) → a ≤ b → b ≤ c → between a b i + between b c i ≤ between a c i
    between_trans a b c h h' = ground arith

    pub Balance-trans :
        {d u d' u' : ℕ} {s t v : Coder}
        → Balance d u s t
        → Balance d' u' t v
        → Balance (d + d') (u + u') s v
    Balance-trans {d} {u} {d'} {u'} {s} {t} {v} p q =
        let b = between_trans s.ar.tag_index t.ar.tag_index v.ar.tag_index p.tags q.tags in
        let p2 = p.at_least in
        let q2 = q.at_least in
        record {
          grows = Grows-trans p.grows q.grows;
          tags = (let x = p.tags in let y = q.tags in omega arith);
          plain = λ h. q.plain (p.plain h);
          at_most = λ h. (let p1 = p.at_most h in let q1 = q.at_most (p.plain h) in omega arith);
          at_least = omega arith;
          resolved = λ e.
              (let x = p.resolved (omega arith) in let y = q.resolved (omega arith) in omega arith);
        }

    -- A step in the body of a function.
    pub record Step (d u : ℕ) (s t : Coder) : Type 0 where
      pub balance : Balance d u s t
      pub same_name : t.ar.func_name ≡ s.ar.func_name

    pub Step-trans :
        {d u d' u' : ℕ} {s t v : Coder} → Step d u s t → Step d' u' t v → Step (d + d') (u + u') s v
    Step-trans p q = record {
      balance = Balance-trans p.balance q.balance;
      same_name = q.same_name ∙ p.same_name;
    }

    pub Step-eq : {d u d' u' : ℕ} {s t : Coder} → d ≡ d' → u ≡ u' → Step d u s t → Step d' u' s t
    Step-eq {d} {u} {d'} {u'} {s} {t} e e' p =
        let p2 = p.balance.at_least in
        record {
          balance = record {
            grows = p.balance.grows;
            tags = p.balance.tags;
            plain = p.balance.plain;
            at_most = λ h. (let p1 = p.balance.at_most h in omega arith);
            at_least = omega arith;
            resolved = λ h. (let x = p.balance.resolved (omega arith) in omega arith);
          };
          same_name = p.same_name;
        }

    same-IsPlain : {f g : String} → g ≡ f → IsPlain f → IsPlain g
    same-IsPlain e h = subst IsPlain (sym e) h

    -- A change of the registers and the code that is quiet, and changes neither the counter, the
    -- routines nor the name of the function.
    pub Quiet-Step :
        (s t : Coder)
        → Quiet l s.gen t.gen
        → t.ar.tag_index ≡ s.ar.tag_index
        → t.ar.init_routine ≡ s.ar.init_routine
        → t.ar.func_name ≡ s.ar.func_name
        → Step 0 0 s t
    Quiet-Step s t q tag routines name =
        let e = q.same_definitions in
        let e' = q.same_uses in
        let end = ap (ends l) routines in
        let start = ap (starts l) routines in
        record {
          balance = record {
            grows = q.grows;
            tags = omega arith;
            plain = same-IsPlain name;
            at_most = λ h. omega arith;
            at_least = omega arith;
            resolved = λ h. omega arith;
          };
          same_name = name;
        }

    pub unchanged-Step :
        (s t : Coder)
        → t.gen ≡ s.gen
        → t.ar.tag_index ≡ s.ar.tag_index
        → t.ar.init_routine ≡ s.ar.init_routine
        → t.ar.func_name ≡ s.ar.func_name
        → Step 0 0 s t
    unchanged-Step s t e =
        Quiet-Step s t (subst (λ g. Quiet l s.gen g) (sym e) (Quiet-refl l s.gen))

    -- The steps of an action, from any state.
    abbrev pub Balanced : {A : Type 0} → ℕ → ℕ → Code A → Type 0
    Balanced {A} d u m = (s : Coder) → Post (λ (a : A) t. Step d u s t) (m s)

    pub bind-Balanced :
        {A B : Type 0} {d u d' u' : ℕ} (m : Code A) (k : A → Code B)
        → Balanced d u m
        → ((a : A) → Balanced d' u' (k a))
        → Balanced (d + d') (u + u') (m >>= k)
    bind-Balanced m k h next s =
        bind m k s (h s) (λ a t p. weaken (next a t) (λ b v q. Step-trans p q))

    pub Balanced-eq :
        {A : Type 0} {d u d' u' : ℕ} (m : Code A)
        → d ≡ d'
        → u ≡ u'
        → Balanced d u m
        → Balanced d' u' m
    Balanced-eq m e e' h s = weaken (h s) (λ a t p. Step-eq e e' p)

    pub then-Balanced :
        {A B : Type 0} {d u : ℕ} (m : Code A) (k : A → Code B)
        → Balanced 0 0 m
        → ((a : A) → Balanced d u (k a))
        → Balanced d u (m >>= k)
    then-Balanced {A} {B} {d} {u} m k h next =
        Balanced-eq (m >>= k) (omega arith) (omega arith) (bind-Balanced m k h next)

    put_gen-Step :
        {A : Type 0} (s : Coder) (r : Option (A × GenState))
        → Post (λ (a : A) g. Quiet l s.gen g) r
        → Post (λ (a : A) t. Step 0 0 s t) (put_gen s r)
    put_gen-Step s none faults = faults
    put_gen-Step s (some (a, g)) (returns q) =
        returns (Quiet-Step s (record s { gen = g }) q refl refl refl)

    pub on_gen-Balanced : {A : Type 0} (m : Gen A) → Silent l m → Balanced 0 0 (on_gen m)
    on_gen-Balanced m h s = put_gen-Step s (m s.gen) (h s.gen)

    -- An instruction that defines or uses labels.
    pub write-Balanced : (x : Instr) → Balanced (defined l x) (used l x) (write x)
    unfolding emit
    write-Balanced x s =
        let e = total-snoc (defined l) s.gen.output x in
        let e' = total-snoc (used l) s.gen.output x in
        returns (record {
          balance = record {
            grows = record { code = x ∷ []; output_is = refl; same_types = λ r. refl };
            tags = omega arith;
            plain = λ h. h;
            at_most = λ h. omega arith;
            at_least = omega arith;
            resolved = λ h. omega arith;
          };
          same_name = refl;
        })

    -- The state behind `getTag`, with the next counter.
    abbrev pub with_tags : ℕ → Coder → Coder
    with_tags n s = record s { ar = record s.ar { tag_index = n } }

    -- A construct takes a counter and then defines the labels that have it.
    close-Step :
        {d u d' u' : ℕ} (s : Coder) (n : ℕ) (t : Coder)
        → s.ar.tag_index ≤ n
        → (IsPlain s.ar.func_name → d ≤ between s.ar.tag_index n i)
        → (d ≡ 0 → u ≡ 0)
        → Step (d + d') (u + u') (with_tags n s) t
        → Step d' u' s t
    close-Step {d} {u} {d'} {u'} s n t le once closed p =
        let p2 = p.balance.at_least in
        let p3 = p.balance.tags in
        let b = between_trans s.ar.tag_index n t.ar.tag_index le p3 in
        record {
          balance = record {
            grows = p.balance.grows;
            tags = omega arith;
            plain = p.balance.plain;
            at_most = λ h. (let p1 = p.balance.at_most h in let o = once h in omega arith);
            at_least = omega arith;
            resolved = λ h.
                (let c = closed (omega arith) in
                  let x = p.balance.resolved (omega arith) in omega arith);
          };
          same_name = p.same_name;
        }

    -- What follows `getTag` may define the new label as often as the bound allows, and go to it.
    pub tag-Balanced :
        {A : Type 0} {d' u' : ℕ} (prefix : String) (k : Label → Code A) (d u : Label → ℕ)
        → ((f : String) (n : ℕ) → IsPlain f → d (tagged prefix f n) ≤ between n (suc n) i)
        → ((j : Label) → d j ≡ 0 → u j ≡ 0)
        → ((j : Label) → Balanced (d j + d') (u j + u') (k j))
        → Balanced d' u' (new_tag prefix >>= k)
    unfolding new_tag get_tag
    tag-Balanced prefix k d u once closed next s =
        let f = s.ar.func_name in
        let n = s.ar.tag_index in
        weaken (next (tagged prefix f n) (with_tags (suc n) s))
          (λ a t p. close-Step s (suc n) t (omega arith) (once f n) (closed (tagged prefix f n)) p)

-- One action after another.
infixr 5 ◌▸◌
pub ◌▸◌ :
    {l : Label} {i : ℕ} {A B : Type 0} {d u d' u' : ℕ} {m : Code A} {k : A → Code B}
    → Balanced l i d u m
    → ((a : A) → Balanced l i d' u' (k a))
    → Balanced l i (d + d') (u + u') (m >>= k)
◌▸◌ {l} {i} {m = m} {k = k} h next = bind-Balanced l i m k h next
