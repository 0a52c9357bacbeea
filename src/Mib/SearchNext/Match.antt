-- ===== src/Mib/SearchNext/Match.antt =====
-- The loop of GETNEXT while it still matches the object identifier, against the calls from there on.
use smartsnmp.Base.{subst}
use smartsnmp.Base.{some}
use smartsnmp.Base.{==_refl}
use smartsnmp.Base.{◌++◌}
use smartsnmp.Base.{[]}
use smartsnmp.Base.{◌∷◌}
use smartsnmp.Base.{get_or}
use smartsnmp.Base.{List}
use smartsnmp.Base.{ℕ, suc, ◌+◌, ◌≡◌, ◌≤◌, ◌<◌, ◌∙◌, refl, arith}
use Prim.Native.Nat.{zero, max}
use smartsnmp.Mib.Node.Arrays.{All-get_or}
use smartsnmp.Mib.Node.Spec.{IsForest}
use smartsnmp.Mib.Node.{Node, Subs, nil, cons, sub_ids, sub_ptr, sub_id_cnt}
use smartsnmp.Mib.Node.Rest.{IsRest, IsRest-whole, IsRest-suc}
use smartsnmp.Mib.Delete.Walk.{rounds, rounds_more, height, height_subs}
use smartsnmp.Mib.SearchNext.Calls.{subs_calls, calls_from, subs_from}

-- The specification in a group, by how its first child compares.
module _ (k : ℕ) (m : Node) (s : Subs) (oid up : List ℕ) where
  pub from_equal : subs_from (cons k m s) k oid up ≡ calls_from m oid (k ∷ up) ++ subs_calls s up
  unfolding subs_from
  from_equal = rw (==_refl k) refl

  pub from_behind : (id : ℕ) → k < id → subs_from (cons k m s) id oid up ≡ subs_from s id oid up
  unfolding subs_from
  from_behind id p = ground (arith, p)

  pub from_ahead : (id : ℕ) → id < k → subs_from (cons k m s) id oid up ≡ subs_calls (cons k m s) up
  unfolding subs_from
  from_ahead id p = ground (arith, p)

-- Where a child with the sub-identifier stands, and what the specification makes of it.
pub record Hit (s : Subs) (id i : ℕ) (n : Node) : Type 0 where
  pub rest : Subs
  pub is_rest : IsRest s (cons id n rest) i
  pub calls :
      (oid up : List ℕ) → subs_from s id oid up ≡ calls_from n oid (id ∷ up) ++ subs_calls rest up
  pub few : rounds n + 1 + rounds_more rest ≤ rounds_more s
  pub low : max (height n) (height_subs rest) ≤ height_subs s

hit_first : (k : ℕ) (m : Node) (s : Subs) → Hit (cons k m s) k 0 m
unfolding rounds_more height_subs
hit_first k m s = record {
  rest = s;
  is_rest = IsRest-whole (cons k m s);
  calls = λ oid up. from_equal k m s oid up;
  few = omega arith;
  low = omega arith;
}

pub hit :
    (s : Subs) (id i : ℕ) (n : Node)
    → IsForest s
    → i < sub_id_cnt s
    → get_or (sub_ids s) i 0 ≡ id
    → sub_ptr s i ≡ some n
    → Hit s id i n
unfolding sub_ids sub_id_cnt sub_ptr rounds_more height_subs
hit nil id i n h p at e = absurd (omega arith)
hit (cons k m s) id zero n h p at e =
    let q : m ≡ n = cc in
    subst (λ x. Hit (cons k m s) id 0 x) q
      (subst (λ j. Hit (cons k m s) j 0 m) at (hit_first k m s))
hit (cons k m s) id (suc i) n h p at e =
    let r = hit s id i n h.2 (omega arith) at e in
    record {
      rest = r.rest;
      is_rest = IsRest-suc s (cons id n r.rest) i k m r.is_rest;
      calls = λ oid up.
          from_behind k m s oid up id
            (subst (λ j. k < j) at (All-get_or k (sub_ids s) i h.0 (omega arith)))
          ∙ r.calls oid up;
      few = omega (arith, r.few);
      low = omega (arith, r.low);
    }

-- Where the next greater child stands.
pub record Greater (s : Subs) (id i : ℕ) : Type 0 where
  pub head : ℕ
  pub node : Node
  pub rest : Subs
  pub is_rest : IsRest s (cons head node rest) i
  pub calls : (oid up : List ℕ) → subs_from s id oid up ≡ subs_calls (cons head node rest) up
  pub few : rounds node + 1 + rounds_more rest ≤ rounds_more s
  pub low : max (height node) (height_subs rest) ≤ height_subs s

pub greater :
    (s : Subs) (id i : ℕ)
    → i < sub_id_cnt s
    → ((k : ℕ) → k < i → get_or (sub_ids s) k 0 < id)
    → ((k : ℕ) → i ≤ k → k < sub_id_cnt s → id < get_or (sub_ids s) k 0)
    → Greater s id i
unfolding sub_ids sub_id_cnt rounds_more height_subs
greater nil id i p lo hi = absurd (omega arith)
greater (cons k m s) id zero p lo hi = record {
  head = k;
  node = m;
  rest = s;
  is_rest = IsRest-whole (cons k m s);
  calls = λ oid up. from_ahead k m s oid up id (hi 0 (omega arith) (omega arith));
  few = omega arith;
  low = omega arith;
}
greater (cons k m s) id (suc i) p lo hi =
    let r =
      greater s id i (omega arith) (λ j q. lo (suc j) (omega arith))
        λ j q t. hi (suc j) (omega arith) (omega arith) in
    record {
      head = r.head;
      node = r.node;
      rest = r.rest;
      is_rest = IsRest-suc s (cons r.head r.node r.rest) i k m r.is_rest;
      calls = λ oid up. from_behind k m s oid up id (lo 0 (omega arith)) ∙ r.calls oid up;
      few = omega (arith, r.few);
      low = omega (arith, r.low);
    }

pub no_greater :
    (s : Subs) (id : ℕ) (oid up : List ℕ)
    → ((k : ℕ) → k < sub_id_cnt s → get_or (sub_ids s) k 0 < id)
    → subs_from s id oid up ≡ []
unfolding sub_ids sub_id_cnt subs_from
no_greater nil id oid up lo = refl
no_greater (cons k m s) id oid up lo =
    from_behind k m s oid up id (lo 0 (omega arith))
    ∙ no_greater s id oid up λ j p. lo (suc j) (omega arith)

pub all_greater :
    (s : Subs) (id : ℕ) (oid up : List ℕ)
    → 0 < sub_id_cnt s
    → id < get_or (sub_ids s) 0 0
    → subs_from s id oid up ≡ subs_calls s up
unfolding sub_ids sub_id_cnt
all_greater nil id oid up p hi = absurd (omega arith)
all_greater (cons k m s) id oid up p hi = from_ahead k m s oid up id hi
