-- ===== src/Mib/SearchNext/Words.antt =====
-- The handlers that GETNEXT asks stand at identifiers of 32-bit words, as the sub-identifiers of the tree are.
use mathlib.Core.List.{reverse-cons}
use smartsnmp.Base.{
  ℕ, ◌≡◌, ◌∙◌, sym, subst, inl, inr, some, arith, Bool-cases, Option-cases, List, [], ◌∷◌, ◌++◌,
  All, reverse, ◌==◌, ltb,
}
use smartsnmp.Base.Bytes.{IsU32}
use smartsnmp.Mib.Node.{Node, group_node, instance_node, Subs, nil, cons}
use smartsnmp.Mib.Node.Spec.{find, node_at, node_at_step, node_at_miss}
use smartsnmp.Mib.SearchNext.Calls.{Call, all_calls, subs_calls, calls_from, subs_from}
use smartsnmp.Mib.SearchNext.Ordered.{All-append}
use smartsnmp.Mib.SearchNext.Refines.{start_calls}
use smartsnmp.Mib.Stored.{to_oids}

-- Every sub-identifier of the tree is a 32-bit word.
abbrev mutual
  pub HasWords : Node → Type 0
  HasWords (group_node room s) = AllWords s
  HasWords (instance_node c) = Unit {0}

  pub AllWords : Subs → Type 0
  AllWords nil = Unit {0}
  AllWords (cons id n s) = IsU32 id × HasWords n × AllWords s

pub words-append : (xs ys : List ℕ) → All IsU32 xs → All IsU32 ys → All IsU32 (xs ++ ys)
words-append [] ys h k = k
words-append (x ∷ xs) ys h k = (h.0, words-append xs ys h.1 k)

pub words-left : (xs ys : List ℕ) → All IsU32 (xs ++ ys) → All IsU32 xs
words-left [] ys h = tt
words-left (x ∷ xs) ys h = (h.0, words-left xs ys h.1)

pub to_oids-words : (xs : List ℕ) → All IsU32 (to_oids xs)
to_oids-words [] = tt
to_oids-words (x ∷ xs) = (omega arith, to_oids-words xs)

way-step :
    (id : ℕ) (up : List ℕ) → IsU32 id → All IsU32 (reverse up) → All IsU32 (reverse (id ∷ up))
way-step id up h k =
    subst (All IsU32) (sym (reverse-cons id up)) (words-append (reverse up) (id ∷ []) k (h, tt))

abbrev pub BaseHasWords : Call → Type 0
BaseHasWords call = All IsU32 call.base

mutual
  unfolding all_calls subs_calls

  all_calls-words :
      (n : Node) (up : List ℕ)
      → HasWords n
      → All IsU32 (reverse up)
      → All BaseHasWords (all_calls n up)
  all_calls-words (instance_node c) up h k = (k, tt)
  all_calls-words (group_node room s) up h k = subs_calls-words s up h k

  subs_calls-words :
      (s : Subs) (up : List ℕ)
      → AllWords s
      → All IsU32 (reverse up)
      → All BaseHasWords (subs_calls s up)
  subs_calls-words nil up h k = tt
  subs_calls-words (cons id n s) up h k =
      All-append BaseHasWords (all_calls n (id ∷ up)) (subs_calls s up)
        (all_calls-words n (id ∷ up) h.1 (way-step id up h.0 k)) (subs_calls-words s up h.2 k)

mutual
  unfolding calls_from subs_from

  pub calls_from-words :
      (n : Node) (oid up : List ℕ)
      → HasWords n
      → All IsU32 (reverse up)
      → All BaseHasWords (calls_from n oid up)
  calls_from-words (instance_node c) oid up h k = (k, tt)
  calls_from-words (group_node room s) [] up h k = subs_calls-words s up h k
  calls_from-words (group_node room s) (id ∷ oid) up h k = subs_from-words s id oid up h k

  subs_from-words :
      (s : Subs) (id : ℕ) (oid up : List ℕ)
      → AllWords s
      → All IsU32 (reverse up)
      → All BaseHasWords (subs_from s id oid up)
  subs_from-words nil id oid up h k = tt
  subs_from-words (cons j n s) id oid up h k = elim (Bool-cases (j == id)) [
    | inl t ↦ rw t (
        All-append BaseHasWords (calls_from n oid (j ∷ up)) (subs_calls s up)
          (calls_from-words n oid (j ∷ up) h.1 (way-step j up h.0 k)) (subs_calls-words s up h.2 k))
    | inr f ↦ elim (Bool-cases (ltb j id)) [
      | inl l ↦ rw (f, l) (subs_from-words s id oid up h.2 k)
      | inr l ↦ rw (f, l) (subs_calls-words (cons j n s) up h k)
    ]
  ]

pub start_calls-words :
    (n : Node) (rest up : List ℕ)
    → HasWords n
    → All IsU32 (reverse up)
    → All BaseHasWords (start_calls n rest up)
unfolding start_calls
start_calls-words (group_node room s) rest up h k = all_calls-words (group_node room s) up h k
start_calls-words (instance_node c) rest up h k = calls_from-words (instance_node c) rest up h k

find-words : (s : Subs) (id : ℕ) (n : Node) → AllWords s → find id s ≡ some n → HasWords n
unfolding find
find-words nil id n h e = cc
find-words (cons k m s) id n h e = elim (Bool-cases (k == id)) [
  | inl t ↦ (let p : some m ≡ some n = rw t at e in let q : m ≡ n = cc in subst HasWords q h.1)
  | inr f ↦ find-words s id n h.2 (rw f at e)
]

pub node_at-words :
    (path : List ℕ) (root node : Node)
    → HasWords root
    → node_at root path ≡ some node
    → HasWords node
unfolding node_at
node_at-words [] root node h e = let q : root ≡ node = cc in subst HasWords q h
node_at-words (x ∷ path) (instance_node c) node h e = cc
node_at-words (x ∷ path) (group_node room s) node h e = elim (Option-cases (find x s)) [
  | inl f ↦ (let e' = sym (node_at_miss room x path s f) ∙ e in cc)
  | inr (n, f) ↦
      node_at-words path n node (find-words s x n h f) (sym (node_at_step room x path s n f) ∙ e)
]
