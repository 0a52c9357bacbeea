-- ===== src/View/Register.antt =====
-- `mib_community_reg` and `mib_user_reg` of core/mib_view.c on the lists of communities and users.
use smartsnmp.Base.{
  ℕ, List, [], ◌∷◌, ◌≡◌, ◌⊎◌, ◌↔◌, inl, inr, refl, sym, ◌∙◌, true, none, some, Option, Bool-cases,
  Option-cases, All,
}
use smartsnmp.Oid.Compare.{IsOid}
use smartsnmp.Oid.Cover.{Covers}
use smartsnmp.View.{
  View, Community, Aces, aces_read, aces_write, same_name, mib_community_search, community_create,
  put_community, bind_all, reg, views_of,
}
use smartsnmp.View.Access.{mib_community_view_cover}
use smartsnmp.View.Covering.{Grants, AllOids, view_cover_iff}
use smartsnmp.View.Names.{
  same→eq, same_refl, search_here, search_later, found-name, found-All, All-put, search-put,
  create_old, create_new,
}
use smartsnmp.View.Grants.{IsCommunity, Includes, bind_all-Gives}

-- A view of the community that was found covers `q`.
abbrev pub Allowed : Option Community → Aces → List ℕ → Type 0
Allowed none a q = ⊥
Allowed (some c) a q = Grants (views_of a c) q

allowed_views : (c : Community) (a : Aces) → IsCommunity c → AllOids (views_of a c)
unfolding views_of
allowed_views c aces_read h = h.ro
allowed_views c aces_write h = h.rw_

pub cover_iff :
    (name : List ℕ) (cs : List Community) (a : Aces) (q : List ℕ)
    → All IsCommunity cs
    → IsOid q
    → (mib_community_view_cover (mib_community_search name cs) a q ≡ true)
      ↔ Allowed (mib_community_search name cs) a q
unfolding mib_community_view_cover
cover_iff name cs a q h hq = elim (Option-cases (mib_community_search name cs)) [
  | inl e ↦ rw e (λ t. cc, λ g. absurd g)
  | inr (c, e) ↦
      rw e (
        view_cover_iff (views_of a c) q (allowed_views c a (found-All IsCommunity name cs c e h))
          hq)
]

-- What `community_create` gives.
record Created (name : List ℕ) (cs : List Community) (p : Community × List Community) : Type 0 where
  held : mib_community_search name p.1 ≡ some p.0
  named : p.0.name ≡ name
  ok : IsCommunity p.0
  all_ok : All IsCommunity p.1
  alike :
      (n : List ℕ) (a : Aces) (q : List ℕ)
      → Allowed (mib_community_search n p.1) a q ↔ Allowed (mib_community_search n cs) a q

blank : List ℕ → Community
blank name = record { name = name; ro_views = []; rw_views = [] }

blank_views : (name : List ℕ) (a : Aces) (q : List ℕ) → ¬ Grants (views_of a (blank name)) q
unfolding views_of blank
blank_views name aces_read q g = g
blank_views name aces_write q g = g

blank_alike :
    (name : List ℕ) (cs : List Community) (n : List ℕ) (a : Aces) (q : List ℕ)
    → mib_community_search name cs ≡ none
    → Allowed (mib_community_search n (blank name ∷ cs)) a q
      ↔ Allowed (mib_community_search n cs) a q
unfolding blank
blank_alike name cs n a q e = elim (Bool-cases (same_name name n)) [
  | inl t ↦
      (let p : mib_community_search n cs ≡ none = rw (← same→eq name n t) e in
        rw (search_here n (blank name) cs t, p)
          (λ g. absurd (blank_views name a q g), λ g. absurd g))
  | inr f ↦ rw (search_later n (blank name) cs f) (λ g. g, λ g. g)
]

create-Created :
    (name : List ℕ) (cs : List Community)
    → All IsCommunity cs
    → Created name cs (community_create name cs)
unfolding blank
create-Created name cs h = elim (Option-cases (mib_community_search name cs)) [
  | inl e ↦ rw (create_new name cs e) record {
    held = search_here name (blank name) cs (same_refl name);
    named = refl;
    ok = record { ro = tt; rw_ = tt };
    all_ok = (record { ro = tt; rw_ = tt }, h);
    alike = λ n a q. blank_alike name cs n a q e;
  }
  | inr (c, e) ↦ rw (create_old name cs c e) record {
    held = e;
    named = found-name name cs c e;
    ok = found-All IsCommunity name cs c e h;
    all_ok = h;
    alike = λ n a q. (λ g. g, λ g. g);
  }
]

-- What `reg` gives: well-formed lists, and access below `oid` for the community `name`.
pub record Registered (oid name : List ℕ) (b : Aces) (cs : List Community)
    (p : List Community × List View) : Type 0 where
  pub communities_ok : All IsCommunity p.0
  pub views_ok : AllOids p.1
  pub access :
      (n : List ℕ) (a : Aces) (q : List ℕ)
      → Allowed (mib_community_search n p.0) a q
        ↔ (((name ≡ n) × Includes b a × Covers oid q) ⊎ Allowed (mib_community_search n cs) a q)

put_access :
    (oid name : List ℕ) (b : Aces) (c c' : Community) (cs cs' : List Community) (n : List ℕ)
    (a : Aces) (q : List ℕ)
    → c'.name ≡ name
    → mib_community_search name cs' ≡ some c
    → (Grants (views_of a c') q ↔ ((Includes b a × Covers oid q) ⊎ Grants (views_of a c) q))
    → (Allowed (mib_community_search n cs') a q ↔ Allowed (mib_community_search n cs) a q)
    → Allowed (mib_community_search n (put_community c' cs')) a q
      ↔ (((name ≡ n) × Includes b a × Covers oid q) ⊎ Allowed (mib_community_search n cs) a q)
put_access oid name b c c' cs cs' n a q named held grants alike =
    let found : mib_community_search c'.name cs' ≡ some c = rw named held in
    let put = search-put n c' c cs' found in
    elim (Bool-cases (same_name c'.name n)) [
      | inl t ↦
          let p : name ≡ n = sym named ∙ same→eq c'.name n t in
          let here : mib_community_search n (put_community c' cs') ≡ some c' = put ∙ rw t refl in
          let old : mib_community_search n cs' ≡ some c = rw (← p) held in
          let alike' : Grants (views_of a c) q ↔ Allowed (mib_community_search n cs) a q =
            rw old at alike in
          rw here (
            λ g. elim (grants.0 g) [ inl k ↦ inl (p, k.0, k.1) | inr k ↦ inr (alike'.0 k) ],
            λ g. elim g [ inl k ↦ grants.1 (inl (k.1, k.2)) | inr k ↦ grants.1 (inr (alike'.1 k)) ],
          )
      | inr f ↦
          let away : mib_community_search n (put_community c' cs') ≡ mib_community_search n cs' =
            put ∙ rw f refl in
          rw away (
            λ g. inr (alike.0 g),
            λ g. elim g [
              | inl k ↦ let s : same_name c'.name n ≡ true = rw (named ∙ k.0) (same_refl n) in cc
              | inr k ↦ alike.1 k
            ],
          )
    ]

pub reg-Registered :
    (oid name : List ℕ) (b : Aces) (cs : List Community) (all : List View)
    → IsOid oid
    → All IsCommunity cs
    → AllOids all
    → Registered oid name b cs (reg oid name b cs all)
unfolding reg
reg-Registered oid name b cs all h hc ha =
    let m = create-Created name cs hc in
    let (c, cs') = community_create name cs in
    let g = bind_all-Gives oid b c all h m.ok ha in
    let c' = (bind_all oid b (c, all)).0 in
    record {
      communities_ok = All-put IsCommunity c' cs' g.oids m.all_ok;
      views_ok = g.all_oids;
      access = λ n a q.
          put_access oid name b c c' cs cs' n a q (g.name_kept ∙ m.named) m.held (g.grants a q)
            (m.alike n a q);
    }
