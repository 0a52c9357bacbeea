-- ===== src/Mib/SearchNext/Ordered.antt =====
-- The calls of GETNEXT ask for what comes behind the object identifier.
use smartsnmp.Base.{ltb-false}
use smartsnmp.Base.{ltb→lt}
use smartsnmp.Base.{◌⊎◌}
use smartsnmp.Base.{subst}
use mathlib.Core.List.{append-nil}
use mathlib.Core.List.{append_assoc, reverse-cons}
use smartsnmp.Base.{ℕ, ◌≡◌, ◌<◌, ◌∙◌, refl, sym, ap, arith, inl, inr}
use smartsnmp.Base.{List, [], ◌∷◌, ◌++◌, reverse, All, ltb, Bool-cases}
use smartsnmp.Oid.Compare.{LexLt}
use smartsnmp.Mib.Node.{Node, group_node, instance_node, Subs, nil, cons, sub_ids}
use smartsnmp.Mib.Node.Spec.{IsTree, IsForest}
use smartsnmp.Mib.SearchNext.Match.{from_equal, from_behind, from_ahead}
use smartsnmp.Mib.SearchNext.Calls.{Call, all_calls, subs_calls, calls_from, subs_from}

-- What a handler replies behind what it was asked for lies behind `oid`, below the node at `up`.
pub record Behind (up oid : List ℕ) (call : Call) : Type 0 where
  pub path : List ℕ
  pub base : call.base ≡ reverse up ++ path
  pub order : (inst_id : List ℕ) → LexLt call.inst_id inst_id → LexLt oid (path ++ inst_id)

pub All-append : (P : Call → Type 0) (xs ys : List Call) → All P xs → All P ys → All P (xs ++ ys)
All-append P [] ys h k = k
All-append P (x ∷ xs) ys h k = (h.0, All-append P xs ys h.1 k)

pub All-map :
    (P Q : Call → Type 0) (xs : List Call) → ((c : Call) → P c → Q c) → All P xs → All Q xs
All-map P Q [] f h = tt
All-map P Q (x ∷ xs) f h = (f x h.0, All-map P Q xs f h.1)

pub step_base :
    (k : ℕ) (up path base : List ℕ)
    → base ≡ reverse (k ∷ up) ++ path
    → base ≡ reverse up ++ (k ∷ path)
step_base k up path base e =
    e ∙ ap (λ z. z ++ path) (reverse-cons k up) ∙ append_assoc (reverse up) (k ∷ []) path

module _ (k : ℕ) (up : List ℕ) (call : Call) where
  -- Below the child of the identifier itself.
  Behind-same : (oid : List ℕ) → Behind (k ∷ up) oid call → Behind up (k ∷ oid) call
  Behind-same oid b = record {
    path = k ∷ b.path;
    base = step_base k up b.path call.base b.base;
    order = λ inst_id h. inr (refl, b.order inst_id h);
  }

  -- Below a later child.
  Behind-later :
      (id : ℕ) (oid any : List ℕ) → id < k → Behind (k ∷ up) any call → Behind up (id ∷ oid) call
  Behind-later id oid any p b = record {
    path = k ∷ b.path;
    base = step_base k up b.path call.base b.base;
    order = λ inst_id h. inl p;
  }

  -- Below any child, where nothing is left to match.
  Behind-any : (any : List ℕ) → Behind (k ∷ up) any call → Behind up [] call
  Behind-any any b = record {
    path = k ∷ b.path;
    base = step_base k up b.path call.base b.base;
    order = λ inst_id h. tt;
  }

Behind-here :
    (c : ℕ) (up oid : List ℕ)
    → Behind up oid record { callback = c; base = reverse up; inst_id = oid }
Behind-here c up oid = record {
  path = [];
  base = sym (append-nil (reverse up));
  order = λ inst_id h. h;
}

mutual
  unfolding all_calls

  pub all_calls-Behind : (n : Node) (up : List ℕ) → All (Behind up []) (all_calls n up)
  all_calls-Behind (instance_node c) up = (Behind-here c up [], tt)
  all_calls-Behind (group_node room s) up = subs_calls-Behind s up

  subs_calls-Behind : (s : Subs) (up : List ℕ) → All (Behind up []) (subs_calls s up)
  subs_calls-Behind nil up = tt
  subs_calls-Behind (cons k n s) up =
      All-append _ (all_calls n (k ∷ up)) (subs_calls s up)
        (All-map _ _ (all_calls n (k ∷ up)) (λ c b. Behind-any k up c [] b)
          (all_calls-Behind n (k ∷ up)))
        (subs_calls-Behind s up)

pub compare_cases : (a b : ℕ) → (a ≡ b) ⊎ ((a < b) ⊎ (b < a))
compare_cases a b = elim (Bool-cases (ltb a b)) [
  | inl t ↦ inr (inl (ltb→lt a b t))
  | inr f ↦ elim (Bool-cases (ltb b a)) [
    | inl t' ↦ inr (inr (ltb→lt b a t'))
    | inr f' ↦ inl (omega (arith, ltb-false a b f, ltb-false b a f'))
  ]
]

pub All-lower : (a b : ℕ) (xs : List ℕ) → a < b → All (λ k. b < k) xs → All (λ k. a < k) xs
All-lower a b [] p h = tt
All-lower a b (x ∷ xs) p h = (omega (arith, h.0), All-lower a b xs p h.1)

later :
    (s : Subs) (id : ℕ) (oid up : List ℕ)
    → All (λ k. id < k) (sub_ids s)
    → All (Behind up (id ∷ oid)) (subs_calls s up)
unfolding sub_ids subs_calls
later nil id oid up h = tt
later (cons k n s) id oid up h =
    All-append _ (all_calls n (k ∷ up)) (subs_calls s up)
      (All-map _ _ (all_calls n (k ∷ up)) (λ c b. Behind-later k up c id oid [] h.0 b)
        (all_calls-Behind n (k ∷ up)))
      (later s id oid up h.1)

mutual
  unfolding calls_from sub_ids

  pub calls_from-Behind :
      (n : Node) (oid up : List ℕ) → IsTree n → All (Behind up oid) (calls_from n oid up)
  calls_from-Behind (instance_node c) oid up h = (Behind-here c up oid, tt)
  calls_from-Behind (group_node room s) [] up h = subs_calls-Behind s up
  calls_from-Behind (group_node room s) (id ∷ oid) up h = subs_from-Behind s id oid up h

  subs_from-Behind :
      (s : Subs) (id : ℕ) (oid up : List ℕ)
      → IsForest s
      → All (Behind up (id ∷ oid)) (subs_from s id oid up)
  subs_from-Behind nil id oid up h = tt
  subs_from-Behind (cons k n s) id oid up h = elim (compare_cases k id) [
    | inl e ↦
        subst (λ j. All (Behind up (j ∷ oid)) (subs_from (cons k n s) j oid up)) e
          (subst (All (Behind up (k ∷ oid))) (sym (from_equal k n s oid up)) (
            All-append _ (calls_from n oid (k ∷ up)) (subs_calls s up)
              (All-map _ _ (calls_from n oid (k ∷ up)) (λ c b. Behind-same k up c oid b)
                (calls_from-Behind n oid (k ∷ up) h.1))
              (later s k oid up h.0)))
    | inr (inl p) ↦
        subst (All (Behind up (id ∷ oid))) (sym (from_behind k n s oid up id p))
          (subs_from-Behind s id oid up h.2)
    | inr (inr p) ↦
        subst (All (Behind up (id ∷ oid))) (sym (from_ahead k n s oid up id p))
          (later (cons k n s) id oid up (p, All-lower id k (sub_ids s) p h.0))
  ]
