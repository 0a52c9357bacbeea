-- ===== src/Mib/Node/Rest.antt =====
-- What the arrays of a group node hold from an index on, for the loops that go through them.
use native.Mathlib.Nat.{zero-add, add-zero}
use smartsnmp.Base.{ℕ, suc, ◌+◌, ◌≡◌, refl, subst, arith, some, get_or}
use smartsnmp.Mib.Node.{Node, Subs, cons, sub_ids, sub_ptr, sub_id_cnt}

-- `rest` is what the arrays of a group hold from the index `i` on.
pub record IsRest (full rest : Subs) (i : ℕ) : Type 0 where
  pub count : sub_id_cnt full ≡ i + sub_id_cnt rest
  pub ident : (k : ℕ) → get_or (sub_ids full) (i + k) 0 ≡ get_or (sub_ids rest) k 0
  pub child : (k : ℕ) → sub_ptr full (i + k) ≡ sub_ptr rest k

pub IsRest-whole : (s : Subs) → IsRest s s 0
IsRest-whole s = record {
  count = omega arith;
  ident = λ k. rw zero-add refl;
  child = λ k. rw zero-add refl;
}

shift : (i k : ℕ) → i + 1 + k ≡ i + suc k
shift i k = omega arith

pub IsRest-tail :
    (full s : Subs) (i id : ℕ) (n : Node) → IsRest full (cons id n s) i → IsRest full s (i + 1)
unfolding sub_id_cnt sub_ids sub_ptr
IsRest-tail full s i id n h = record {
  count = omega (arith, h.count);
  ident = λ k. rw (shift i k) (h.ident (suc k));
  child = λ k. rw (shift i k) (h.child (suc k));
}

-- One more entry in front.
pub IsRest-suc :
    (full rest : Subs) (i id : ℕ) (n : Node)
    → IsRest full rest i
    → IsRest (cons id n full) rest (suc i)
unfolding sub_id_cnt sub_ids sub_ptr
IsRest-suc full rest i id n h = record {
  count = omega (arith, h.count);
  ident = λ k. rw (front i k) (h.ident k);
  child = λ k. rw (front i k) (h.child k);
}
  where
    front : (i k : ℕ) → suc i + k ≡ suc (i + k)
    front i k = omega arith

module _ (full s : Subs) (i id : ℕ) (n : Node) (h : IsRest full (cons id n s) i) where
  pub IsRest-head : sub_ptr full i ≡ some n
  unfolding sub_ptr
  IsRest-head = subst (λ j. sub_ptr full j ≡ some n) (add-zero i) (h.child 0)

  pub IsRest-ident : get_or (sub_ids full) i 0 ≡ id
  unfolding sub_ids
  IsRest-ident = subst (λ j. get_or (sub_ids full) j 0 ≡ id) (add-zero i) (h.ident 0)
