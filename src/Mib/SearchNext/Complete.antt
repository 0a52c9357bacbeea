-- ===== src/Mib/SearchNext/Complete.antt =====
-- GETNEXT leaves out no handler that is registered behind the object identifier.
use smartsnmp.Base.{if◌then◌else◌}
use smartsnmp.Base.{==_refl}
use smartsnmp.Base.{==_apart}
use smartsnmp.Mib.SearchNext.Ordered.{All-lower}
use smartsnmp.Base.{false}
use smartsnmp.Base.{◌≢◌}
use smartsnmp.Base.{true}
use smartsnmp.Base.{==→eq}
use mathlib.Core.List.{append-nil}
use smartsnmp.Base.{
  ℕ, ◌≡◌, ◌<◌, ◌∙◌, ◌⊎◌, refl, sym, subst, inl, inr, none, some, arith, Bool-cases, Option-cases,
}
use smartsnmp.Base.{List, [], ◌∷◌, ◌++◌, All, reverse, ◌==◌}
use smartsnmp.Oid.Compare.{LexLt}
use smartsnmp.Oid.Cover.{Covers}
use smartsnmp.Mib.Node.{Node, group_node, instance_node, Subs, nil, cons, sub_ids}
use smartsnmp.Mib.Node.Spec.{
  IsTree, IsForest, find, find-IsTree, handler_at, handler_at_step, handler_at_miss,
}
use smartsnmp.Mib.SearchNext.Match.{from_equal, from_behind, from_ahead}
use smartsnmp.Mib.SearchNext.Ordered.{compare_cases, step_base}
use smartsnmp.Mib.SearchNext.Calls.{Call, all_calls, subs_calls, calls_from, subs_from}

find_skip :
    (k x : ℕ) (n m : Node) (s : Subs) → find x (cons k n s) ≡ some m → k ≢ x → find x s ≡ some m
unfolding find
find_skip k x n m s e h = rw (==_apart k x h) at e

find_here : (k x : ℕ) (n m : Node) (s : Subs) → find x (cons k n s) ≡ some m → k ≡ x → n ≡ m
unfolding find
find_here k x n m s e q =
    let t : (k == x) ≡ true = rw (← q) (==_refl k) in let z : some n ≡ some m = rw t at e in cc

find_nil : (x : ℕ) → find x nil ≡ none
unfolding find
find_nil x = refl

find_above : (s : Subs) (id : ℕ) → All (λ k. id < k) (sub_ids s) → find id s ≡ none
unfolding find sub_ids
find_above nil id h = refl
find_above (cons k n s) id h =
    let t : (k == id) ≡ false = ==_apart k id (omega (arith, h.0)) in rw t (find_above s id h.1)

first_step :
    (id x : ℕ) (oid p : List ℕ)
    → LexLt (id ∷ oid) (x ∷ p) ⊎ Covers (x ∷ p) (id ∷ oid)
    → (id < x) ⊎ ((id ≡ x) × (LexLt oid p ⊎ Covers p oid))
first_step id x oid p (inl (inl h)) = inl h
first_step id x oid p (inl (inr (e, h))) = inr (e, inl h)
first_step id x oid p (inr (e, h)) = inr (sym e, inr h)

-- What of `oid` is behind its prefix `p`; nothing where `p` is no prefix.
abbrev pub left_of : List ℕ → List ℕ → List ℕ
left_of [] oid = oid
left_of (x ∷ p) [] = []
left_of (x ∷ p) (y ∷ oid) = if x == y then left_of p oid else []

left_of_same : (x : ℕ) (p oid : List ℕ) → left_of (x ∷ p) (x ∷ oid) ≡ left_of p oid
left_of_same x p oid = rw (==_refl x) refl

left_of_apart : (x y : ℕ) (p oid : List ℕ) → y < x → left_of (x ∷ p) (y ∷ oid) ≡ []
left_of_apart x y p oid h = rw (==_apart x y (omega (arith, h))) refl

pub left_of-append : (path p oid : List ℕ) → left_of (path ++ p) (path ++ oid) ≡ left_of p oid
left_of-append [] p oid = refl
left_of-append (x ∷ path) p oid =
    left_of_same x (path ++ p) (path ++ oid) ∙ left_of-append path p oid

module _ (P : Call → Type 0) where
  -- Of the calls of two lists.
  All-left : (xs ys : List Call) → All P (xs ++ ys) → All P xs
  All-left [] ys h = tt
  All-left (x ∷ xs) ys h = (h.0, All-left xs ys h.1)

  All-right : (xs ys : List Call) → All P (xs ++ ys) → All P ys
  All-right [] ys h = h
  All-right (x ∷ xs) ys h = All-right xs ys h.1

  sub-All :
      (s : Subs) (x : ℕ) (m : Node) (up : List ℕ)
      → All P (subs_calls s up)
      → find x s ≡ some m
      → All P (all_calls m (x ∷ up))
  unfolding find subs_calls
  sub-All nil x m up h e = cc
  sub-All (cons k n s) x m up h e = elim (Bool-cases (k == x)) [
    | inl t ↦
        (let p : some n ≡ some m = rw t at e in
          let q : n ≡ m = cc in
          subst (λ j. All P (all_calls m (j ∷ up))) (==→eq k x t)
            (subst (λ z. All P (all_calls z (k ∷ up))) q
              (All-left (all_calls n (k ∷ up)) (subs_calls s up) h)))
    | inr f ↦ sub-All s x m up (All-right (all_calls n (k ∷ up)) (subs_calls s up) h) (rw f at e)
  ]

  up_cons :
      (x c : ℕ) (up p inst : List ℕ)
      → P record { callback = c; base = reverse (x ∷ up) ++ p; inst_id = inst }
      → P record { callback = c; base = reverse up ++ (x ∷ p); inst_id = inst }
  up_cons x c up p inst h =
      subst (λ z. P record { callback = c; base = z; inst_id = inst }) (step_base x up p _ refl) h

  up_nil :
      (c : ℕ) (up inst : List ℕ)
      → P record { callback = c; base = reverse up; inst_id = inst }
      → P record { callback = c; base = reverse up ++ []; inst_id = inst }
  up_nil c up inst h =
      subst (λ z. P record { callback = c; base = z; inst_id = inst })
        (sym (append-nil (reverse up))) h

  all_reach :
      (p : List ℕ) (n : Node) (up : List ℕ) (c : ℕ)
      → All P (all_calls n up)
      → handler_at n p ≡ some c
      → P record { callback = c; base = reverse up ++ p; inst_id = [] }
  all_reach [] (instance_node k) up c h e =
      let s : some k ≡ some c = unfold handler_at in e in
      let q : k ≡ c = cc in
      up_nil c up [] (
        subst (λ z. P record { callback = z; base = reverse up; inst_id = [] }) q
          (unfold all_calls in h.0))
  all_reach [] (group_node room s) up c h e = unfold handler_at in cc
  all_reach (x ∷ p) (instance_node k) up c h e = unfold handler_at in cc
  all_reach (x ∷ p) (group_node room s) up c h e = elim (Option-cases (find x s)) [
    | inl f ↦ cc (e, handler_at_miss room x p s f)
    | inr (m, f) ↦ up_cons x c up p [] (
        all_reach p m (x ∷ up) c (sub-All s x m up (unfold all_calls in h) f)
          (sym (handler_at_step room x p s m f) ∙ e))
  ]

  sub_later :
      (s : Subs) (id : ℕ) (oid up : List ℕ) (x : ℕ) (m : Node)
      → All P (subs_from s id oid up)
      → find x s ≡ some m
      → id < x
      → All P (all_calls m (x ∷ up))
  sub_later nil id oid up x m h e p = cc (e, find_nil x)
  sub_later (cons k n s) id oid up x m h e p = elim (compare_cases k id) [
    | inl q ↦
        sub-All s x m up
          (All-right (calls_from n oid (k ∷ up)) (subs_calls s up) (
            subst (All P) (from_equal k n s oid up)
              (subst (λ j. All P (subs_from (cons k n s) j oid up)) (sym q) h)))
          (find_skip k x n m s e (omega arith))
    | inr (inl q) ↦
        sub_later s id oid up x m (subst (All P) (from_behind k n s oid up id q) h)
          (find_skip k x n m s e (omega arith)) p
    | inr (inr q) ↦ sub-All (cons k n s) x m up (subst (All P) (from_ahead k n s oid up id q) h) e
  ]

  sub_same :
      (s : Subs) (id : ℕ) (oid up : List ℕ) (m : Node)
      → IsForest s
      → All P (subs_from s id oid up)
      → find id s ≡ some m
      → All P (calls_from m oid (id ∷ up))
  sub_same nil id oid up m f h e = cc (e, find_nil id)
  sub_same (cons k n s) id oid up m f h e = elim (compare_cases k id) [
    | inl q ↦
        (let z : n ≡ m = find_here k id n m s e q in
          subst (λ j. All P (calls_from m oid (j ∷ up))) q
            (subst (λ z'. All P (calls_from z' oid (k ∷ up))) z
              (All-left (calls_from n oid (k ∷ up)) (subs_calls s up) (
                subst (All P) (from_equal k n s oid up)
                  (subst (λ j. All P (subs_from (cons k n s) j oid up)) (sym q) h)))))
    | inr (inl q) ↦
        sub_same s id oid up m f.2 (subst (All P) (from_behind k n s oid up id q) h)
          (find_skip k id n m s e (omega arith))
    | inr (inr q) ↦
        (let none_here : find id s ≡ none = find_above s id (All-lower id k (sub_ids s) q f.0) in
          let e' : find id s ≡ some m = find_skip k id n m s e (omega arith) in cc)
  ]

  -- The handler at `p`, where `p` is behind `oid` or a prefix of it, is among the calls from `oid` on, with what of `oid`
  -- is behind `p`.
  pub from_reach :
      (oid p : List ℕ) (n : Node) (up : List ℕ) (c : ℕ)
      → IsTree n
      → All P (calls_from n oid up)
      → handler_at n p ≡ some c
      → LexLt oid p ⊎ Covers p oid
      → P record { callback = c; base = reverse up ++ p; inst_id = left_of p oid }
  from_reach oid [] (instance_node k) up c t h e o =
      let s : some k ≡ some c = unfold handler_at in e in
      let q : k ≡ c = cc in
      up_nil c up oid (
        subst (λ z. P record { callback = z; base = reverse up; inst_id = oid }) q
          (unfold calls_from in h.0))
  from_reach oid [] (group_node room s) up c t h e o = unfold handler_at in cc
  from_reach oid (x ∷ p) (instance_node k) up c t h e o = unfold handler_at in cc
  from_reach [] (x ∷ p) (group_node room s) up c t h e o =
      all_reach (x ∷ p) (group_node room s) up c (unfold calls_from all_calls in h) e
  from_reach (id ∷ oid) (x ∷ p) (group_node room s) up c t h e o = elim (Option-cases (find x s)) [
    | inl f ↦ cc (e, handler_at_miss room x p s f)
    | inr (m, f) ↦
        (let h' : All P (subs_from s id oid up) = unfold calls_from in h in
          let e' : handler_at m p ≡ some c = sym (handler_at_step room x p s m f) ∙ e in
          elim (first_step id x oid p o) [
            | inl q ↦ rw (left_of_apart x id p oid q) (
                up_cons x c up p []
                  (all_reach p m (x ∷ up) c (sub_later s id oid up x m h' f q) e'))
            | inr (q, o') ↦
                (let f' : find id s ≡ some m = rw q f in
                  let k =
                    from_reach oid p m (id ∷ up) c (find-IsTree s x m t f)
                      (sub_same s id oid up m t h' f') e' o' in
                  subst
                    (λ j. P record {
                      callback = c;
                      base = reverse up ++ (j ∷ p);
                      inst_id = left_of (j ∷ p) (id ∷ oid);
                    })
                    q (rw (left_of_same id p oid) (up_cons id c up p (left_of p oid) k)))
          ])
  ]
