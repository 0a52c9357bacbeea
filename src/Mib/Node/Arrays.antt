-- ===== src/Mib/Node/Arrays.antt =====
-- The array operations of a group node against the linear search of its specification.
use smartsnmp.Base.{ℕ, zero, suc, ◌+◌, ◌≡◌, ◌≤◌, ◌<◌, ◌≢◌, refl, ap, arith}
use smartsnmp.Base.{List, [], ◌∷◌, none, some, ◌==◌, if◌then◌else◌, length, get_or, All}
use smartsnmp.Oid.BinarySearch.Correct.{IsAscending}
use smartsnmp.Mib.Node.{
  Node, Subs, nil, cons, sub_ids, sub_ptr, sub_id_cnt, put_sub, set_ptr, group_node_shrink,
}
use smartsnmp.Mib.Node.Spec.{find}

-- The sub-identifiers ascend, as `IsForest` has it.
abbrev pub Ascends : List ℕ → Type 0
Ascends [] = Unit {0}
Ascends (x ∷ xs) = All (λ k. x < k) xs × Ascends xs

pub All-get_or :
    (x : ℕ) (xs : List ℕ) (i : ℕ) → All (λ k. x < k) xs → i < length xs → x < get_or xs i 0
All-get_or x [] i h lt = absurd (omega arith)
All-get_or x (y ∷ ys) zero h lt = h.0
All-get_or x (y ∷ ys) (suc i) h lt = All-get_or x ys i h.1 (omega arith)

pub Ascends-IsAscending : (xs : List ℕ) → Ascends xs → IsAscending xs
Ascends-IsAscending [] h i j p q = absurd (omega arith)
Ascends-IsAscending (x ∷ xs) h zero zero p q = absurd (omega arith)
Ascends-IsAscending (x ∷ xs) h zero (suc j) p q = All-get_or x xs j h.0 (omega arith)
Ascends-IsAscending (x ∷ xs) h (suc i) zero p q = absurd (omega arith)
Ascends-IsAscending (x ∷ xs) h (suc i) (suc j) p q =
    Ascends-IsAscending xs h.1 i j (omega arith) (omega arith)

-- The child at an index is the one that the linear search for its sub-identifier finds.
pub find-sub_ptr :
    (s : Subs) (i id : ℕ)
    → Ascends (sub_ids s)
    → i < sub_id_cnt s
    → get_or (sub_ids s) i 0 ≡ id
    → (n : Node) × (sub_ptr s i ≡ some n) × (find id s ≡ some n)
unfolding sub_ids sub_ptr sub_id_cnt find
find-sub_ptr nil i id asc lt e = absurd (omega arith)
find-sub_ptr (cons k n s) zero id asc lt e = (n, refl, ground arith)
find-sub_ptr (cons k n s) (suc i) id asc lt e =
    let (m, p, q) = find-sub_ptr s i id asc.1 (omega arith) e in
    (m, p, ground (arith, All-get_or k (sub_ids s) i asc.0))

pub find-set_ptr :
    (s : Subs) (i id j : ℕ) (m : Node)
    → Ascends (sub_ids s)
    → i < sub_id_cnt s
    → get_or (sub_ids s) i 0 ≡ id
    → find j (set_ptr i m s) ≡ (if id == j then some m else find j s)
unfolding sub_ids set_ptr sub_id_cnt find
find-set_ptr nil i id j m asc lt e = absurd (omega arith)
find-set_ptr (cons k n s) zero id j m asc lt e = ground arith
find-set_ptr (cons k n s) (suc i) id j m asc lt e =
    ground (arith, find-set_ptr s i id j m asc.1, All-get_or k (sub_ids s) i asc.0)

pub sub_ids-set_ptr : (i : ℕ) (m : Node) (s : Subs) → sub_ids (set_ptr i m s) ≡ sub_ids s
unfolding sub_ids set_ptr
sub_ids-set_ptr i m nil = refl
sub_ids-set_ptr zero m (cons k n s) = refl
sub_ids-set_ptr (suc i) m (cons k n s) = ap (λ (t : List ℕ). k ∷ t) (sub_ids-set_ptr i m s)

-- A sub-identifier that differs from all of the array is not found.
pub find-missing :
    (s : Subs) (id : ℕ)
    → ((i : ℕ) → i < sub_id_cnt s → get_or (sub_ids s) i 0 ≢ id)
    → find id s ≡ none
unfolding sub_ids sub_id_cnt find
find-missing nil id h = refl
find-missing (cons k n s) id h =
    ground (arith, h 0, find-missing s id (λ i p. h (suc i) (omega arith)))

-- An insertion at the place that the binary search reports.
pub find-put_sub :
    (s : Subs) (i id j : ℕ) (m : Node)
    → i ≤ sub_id_cnt s
    → ((k : ℕ) → k < i → get_or (sub_ids s) k 0 < id)
    → find j (put_sub i id m s) ≡ (if id == j then some m else find j s)
unfolding sub_ids put_sub sub_id_cnt find
find-put_sub nil i id j m le h = ground arith
find-put_sub (cons k n s) zero id j m le h = ground arith
find-put_sub (cons k n s) (suc i) id j m le h =
    ground (arith, h 0, find-put_sub s i id j m (omega arith) (λ l p. h (suc l) (omega arith)))

All-above :
    (x : ℕ) (xs : List ℕ) → ((k : ℕ) → k < length xs → x < get_or xs k 0) → All (λ k. x < k) xs
All-above x [] h = tt
All-above x (y ∷ ys) h = (h 0 (omega arith), All-above x ys (λ k p. h (suc k) (omega arith)))

All-put_sub :
    (x : ℕ) (s : Subs) (i id : ℕ) (m : Node)
    → x < id
    → All (λ k. x < k) (sub_ids s)
    → All (λ k. x < k) (sub_ids (put_sub i id m s))
unfolding sub_ids put_sub
All-put_sub x nil i id m lt h = omega arith
All-put_sub x (cons k n s) zero id m lt h = (lt, h)
All-put_sub x (cons k n s) (suc i) id m lt h = (h.0, All-put_sub x s i id m lt h.1)

pub Ascends-put_sub :
    (s : Subs) (i id : ℕ) (m : Node)
    → Ascends (sub_ids s)
    → ((k : ℕ) → k < i → get_or (sub_ids s) k 0 < id)
    → ((k : ℕ) → i ≤ k → k < sub_id_cnt s → id < get_or (sub_ids s) k 0)
    → i ≤ sub_id_cnt s
    → Ascends (sub_ids (put_sub i id m s))
unfolding sub_ids put_sub sub_id_cnt
Ascends-put_sub nil i id m asc lo hi le = (tt, tt)
Ascends-put_sub (cons k n s) zero id m asc lo hi le =
    (All-above id (k ∷ sub_ids s) (λ l p. hi l (omega arith) p), asc)
Ascends-put_sub (cons k n s) (suc i) id m asc lo hi le = (
  All-put_sub k s i id m (lo 0 (omega arith)) asc.0,
  Ascends-put_sub s i id m asc.1 (λ l p. lo (suc l) (omega arith))
      (λ l p q. hi (suc l) (omega arith) (omega arith)) (omega arith),
)

pub sub_id_cnt-put_sub :
    (s : Subs) (i id : ℕ) (m : Node) → sub_id_cnt (put_sub i id m s) ≡ sub_id_cnt s + 1
unfolding sub_ids put_sub sub_id_cnt
sub_id_cnt-put_sub nil i id m = refl
sub_id_cnt-put_sub (cons k n s) zero id m = omega arith
sub_id_cnt-put_sub (cons k n s) (suc i) id m = omega (arith, sub_id_cnt-put_sub s i id m)

find-above : (x j : ℕ) (s : Subs) → All (λ k. x < k) (sub_ids s) → x ≡ j → find j s ≡ none
unfolding sub_ids find
find-above x j nil h e = refl
find-above x j (cons k n s) h e = ground (arith, find-above x j s h.1)

-- A removal at an index removes that sub-identifier alone.
pub find-shrink :
    (s : Subs) (i id j : ℕ)
    → Ascends (sub_ids s)
    → i < sub_id_cnt s
    → get_or (sub_ids s) i 0 ≡ id
    → find j (group_node_shrink i s) ≡ (if id == j then none else find j s)
unfolding sub_ids group_node_shrink sub_id_cnt find
find-shrink nil i id j asc lt e = absurd (omega arith)
find-shrink (cons k n nil) zero id j asc lt e = ground arith
find-shrink (cons k n nil) (suc i) id j asc lt e = absurd (omega arith)
find-shrink (cons k n (cons k' n' s)) zero id j asc lt e =
    ground (arith, find-above k j (cons k' n' s) asc.0)
find-shrink (cons k n (cons k' n' s)) (suc i) id j asc lt e =
    ground (arith, find-shrink (cons k' n' s) i id j asc.1, All-get_or k (k' ∷ sub_ids s) i asc.0)

pub All-shrink :
    (x : ℕ) (s : Subs) (i : ℕ)
    → All (λ k. x < k) (sub_ids s)
    → All (λ k. x < k) (sub_ids (group_node_shrink i s))
unfolding sub_ids group_node_shrink
All-shrink x nil i h = tt
All-shrink x (cons k n nil) i h = tt
All-shrink x (cons k n (cons k' n' s)) zero h = h.1
All-shrink x (cons k n (cons k' n' s)) (suc i) h = (h.0, All-shrink x (cons k' n' s) i h.1)

pub sub_id_cnt-shrink :
    (s : Subs) (i : ℕ) → 1 ≤ sub_id_cnt s → sub_id_cnt (group_node_shrink i s) + 1 ≡ sub_id_cnt s
unfolding sub_ids group_node_shrink sub_id_cnt
sub_id_cnt-shrink nil i h = absurd (omega arith)
sub_id_cnt-shrink (cons k n nil) i h = omega arith
sub_id_cnt-shrink (cons k n (cons k' n' s)) zero h = omega arith
sub_id_cnt-shrink (cons k n (cons k' n' s)) (suc i) h =
    omega (arith, sub_id_cnt-shrink (cons k' n' s) i (omega arith))
