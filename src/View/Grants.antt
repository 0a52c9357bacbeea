-- ===== src/View/Grants.antt =====
-- What `mib_community_reg` and `mib_user_reg` of core/mib_view.c give access to.
use smartsnmp.Base.{ℕ, List, ◌≡◌, ◌⊎◌, ◌↔◌, inl, inr, refl, ◌∙◌, Bool-cases, All}
use smartsnmp.Oid.Compare.{IsOid}
use smartsnmp.Oid.Cover.{Covers}
use smartsnmp.View.{
  View, Community, Aces, aces_read, aces_write, Store, bind_views, community_view_bind, bind_all,
  views_of, set_views, view_create, community_view_filter,
}
use smartsnmp.View.Covering.{Grants, AllOids}
use smartsnmp.View.Filter.{filter-Filtered}
use smartsnmp.View.Bind.{bind-Grants, bind_covered, bind_new, create-oid, All-add}

-- The views of a community name object identifiers of the program.
pub record IsCommunity (c : Community) : Type 0 where
  pub ro : AllOids c.ro_views
  pub rw_ : AllOids c.rw_views

pub record IsStore (st : Store) : Type 0 where
  pub views : AllOids st.mib_views
  pub communities : All IsCommunity st.mib_communities
  pub users : All IsCommunity st.mib_users

-- A registration for `given` gives access for `asked`.
abbrev pub Includes : Aces → Aces → Type 0
Includes aces_write asked = Unit {0}
Includes aces_read aces_read = Unit {0}
Includes aces_read aces_write = ⊥

bind-AllOids :
    (oid : List ℕ) (vs all : List View)
    → IsOid oid
    → AllOids vs
    → AllOids all
    → AllOids (bind_views oid vs all).0 × AllOids (bind_views oid vs all).1
bind-AllOids oid vs all h hs ha =
    let f = filter-Filtered oid vs h hs in
    let (same, ha') = create-oid oid all h ha in
    let kept : AllOids (community_view_filter oid vs).1 = f.all_kept (λ v. IsOid v.oid) hs in
    elim (Bool-cases (community_view_filter oid vs).0) [
      | inl e ↦ rw (bind_covered oid vs all e) (kept, ha)
      | inr e ↦
          rw (bind_new oid vs all e)
            (All-add (λ v. IsOid v.oid) oid (view_create oid all).0 _ (rw same h) kept, ha')
    ]

-- What a step on a community and `mib_views` is to do: keep the name and the object identifiers, and grant
-- `oid` for the attributes of `P`.
pub record Gives (oid : List ℕ) (P : Aces → Type 0) (c : Community) (p : Community × List View)
    : Type 0 where
  pub name_kept : p.0.name ≡ c.name
  pub oids : IsCommunity p.0
  pub all_oids : AllOids p.1
  pub grants :
      (a : Aces) (q : List ℕ)
      → Grants (views_of a p.0) q ↔ ((P a × Covers oid q) ⊎ Grants (views_of a c) q)

-- `a` is the attribute `b`.
abbrev IsSame : Aces → Aces → Type 0
IsSame aces_read aces_read = Unit {0}
IsSame aces_write aces_write = Unit {0}
IsSame aces_read aces_write = ⊥
IsSame aces_write aces_read = ⊥

granted : (A B : Type 0) → (A ⊎ B) ↔ ((Unit {0} × A) ⊎ B)
granted A B = (
  λ g. elim g [ inl a ↦ inl (tt, a) | inr b ↦ inr b ],
  λ g. elim g [ inl (t, a) ↦ inl a | inr b ↦ inr b ],
)

not_granted : (A B : Type 0) → B ↔ ((⊥ × A) ⊎ B)
not_granted A B = (λ g. inr g, λ g. elim g [ inl (t, a) ↦ absurd t | inr b ↦ b ])

pub chain : {A B C : Type 0} → (A ↔ B) → (B ↔ C) → A ↔ C
chain f g = (λ a. g.0 (f.0 a), λ c. f.1 (g.1 c))

bind-Grants_at :
    (oid : List ℕ) (b : Aces) (c : Community) (all : List View)
    → IsOid oid
    → IsCommunity c
    → AllOids all
    → (a : Aces) (q : List ℕ)
    → Grants (views_of a (community_view_bind oid b (c, all)).0) q
      ↔ ((IsSame b a × Covers oid q) ⊎ Grants (views_of a c) q)
unfolding community_view_bind views_of set_views
bind-Grants_at oid aces_read c all h hc ha aces_read q =
    chain (bind-Grants oid q c.ro_views all h hc.ro ha) (granted _ _)
bind-Grants_at oid aces_read c all h hc ha aces_write q = not_granted _ _
bind-Grants_at oid aces_write c all h hc ha aces_read q = not_granted _ _
bind-Grants_at oid aces_write c all h hc ha aces_write q =
    chain (bind-Grants oid q c.rw_views all h hc.rw_ ha) (granted _ _)

bind-Gives :
    (oid : List ℕ) (b : Aces) (c : Community) (all : List View)
    → IsOid oid
    → IsCommunity c
    → AllOids all
    → Gives oid (IsSame b) c (community_view_bind oid b (c, all))
unfolding community_view_bind views_of set_views
bind-Gives oid aces_read c all h hc ha =
    let (k, ka) = bind-AllOids oid c.ro_views all h hc.ro ha in
    record {
      name_kept = refl;
      oids = record { ro = k; rw_ = hc.rw_ };
      all_oids = ka;
      grants = bind-Grants_at oid aces_read c all h hc ha;
    }
bind-Gives oid aces_write c all h hc ha =
    let (k, ka) = bind-AllOids oid c.rw_views all h hc.rw_ ha in
    record {
      name_kept = refl;
      oids = record { ro = hc.ro; rw_ = k };
      all_oids = ka;
      grants = bind-Grants_at oid aces_write c all h hc ha;
    }

read_iff :
    (a : Aces) (A B : Type 0) → ((IsSame aces_read a × A) ⊎ B) ↔ ((Includes aces_read a × A) ⊎ B)
read_iff aces_read A B = (λ g. g, λ g. g)
read_iff aces_write A B = (λ g. g, λ g. g)

write_iff :
    (a : Aces) (A B : Type 0)
    → ((IsSame aces_read a × A) ⊎ ((IsSame aces_write a × A) ⊎ B))
      ↔ ((Includes aces_write a × A) ⊎ B)
write_iff aces_read A B = (
  λ g. elim g [ inl x ↦ inl x | inr (inl (x, y)) ↦ absurd x | inr (inr x) ↦ inr x ],
  λ g. elim g [ inl x ↦ inl x | inr x ↦ inr (inr x) ],
)
write_iff aces_write A B = (λ g. elim g [ inl (x, y) ↦ absurd x | inr x ↦ x ], λ g. inr g)

pub bind_all-Gives :
    (oid : List ℕ) (b : Aces) (c : Community) (all : List View)
    → IsOid oid
    → IsCommunity c
    → AllOids all
    → Gives oid (Includes b) c (bind_all oid b (c, all))
unfolding bind_all
bind_all-Gives oid aces_read c all h hc ha =
    let g = bind-Gives oid aces_read c all h hc ha in
    record {
      name_kept = g.name_kept;
      oids = g.oids;
      all_oids = g.all_oids;
      grants = λ a q. chain (g.grants a q) (read_iff a _ _);
    }
bind_all-Gives oid aces_write c all h hc ha =
    let (c1, all1) = community_view_bind oid aces_write (c, all) in
    let g = bind-Gives oid aces_write c all h hc ha in
    let k = bind-Gives oid aces_read c1 all1 h g.oids g.all_oids in
    record {
      name_kept = k.name_kept ∙ g.name_kept;
      oids = k.oids;
      all_oids = k.all_oids;
      grants = λ a q. chain (k.grants a q) (
          chain
            (
              λ s. elim s [ inl x ↦ inl x | inr y ↦ inr ((g.grants a q).0 y) ],
              λ s. elim s [ inl x ↦ inl x | inr y ↦ inr ((g.grants a q).1 y) ],
            )
            (write_iff a _ _));
    }
