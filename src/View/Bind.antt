-- ===== src/View/Bind.antt =====
-- `community_view_add` and `community_view_bind` of core/mib_view.c: what a list of views grants.
use smartsnmp.Base.{
  length, Option-cases, List, [], ◌∷◌, ℕ, ◌≡◌, ◌⊎◌, ◌↔◌, inl, inr, refl, sym, subst, true, false,
  Bool-cases, All, none, some, length, Option-cases,
}
use smartsnmp.Base.Int.{is_pos, is_zero}
use smartsnmp.Oid.{oid_cmp}
use smartsnmp.Oid.Compare.{IsOid, oid_cmp_zero_iff}
use smartsnmp.Oid.Cover.{Covers}
use smartsnmp.View.{
  View, mib_view_search, view_create, community_view_add, community_view_filter, bind_views,
}
use smartsnmp.View.Covering.{Grants, Grants-trans, AllOids}
use smartsnmp.View.Filter.{filter-Filtered}

-- One round of the insertion.
module _ (oid : List ℕ) (v w : View) (vs : List View) where
  pub add_here : is_pos (oid_cmp w.oid oid) ≡ true → community_view_add oid v (w ∷ vs) ≡ v ∷ w ∷ vs
  unfolding community_view_add
  add_here e = rw (community_view_add, e) refl

  pub add_later :
      is_pos (oid_cmp w.oid oid) ≡ false
      → community_view_add oid v (w ∷ vs) ≡ w ∷ community_view_add oid v vs
  unfolding community_view_add
  add_later e = rw (community_view_add, e) refl

-- A property of all views is kept.
pub All-add :
    (P : View → Type 0) (oid : List ℕ) (v : View) (vs : List View)
    → P v
    → All P vs
    → All P (community_view_add oid v vs)
unfolding community_view_add
All-add P oid v [] p h = (p, tt)
All-add P oid v (w ∷ vs) p h = elim (Bool-cases (is_pos (oid_cmp w.oid oid))) [
  | inl e ↦ rw (add_here oid v w vs e) (p, h)
  | inr e ↦ rw (add_later oid v w vs e) (h.0, All-add P oid v vs p h.1)
]

pub Grants-add :
    (oid q : List ℕ) (v : View) (vs : List View)
    → Grants (community_view_add oid v vs) q ↔ (Covers v.oid q ⊎ Grants vs q)
unfolding community_view_add
Grants-add oid q v [] = (λ g. g, λ g. g)
Grants-add oid q v (w ∷ vs) = elim (Bool-cases (is_pos (oid_cmp w.oid oid))) [
  | inl e ↦ rw (add_here oid v w vs e) (λ g. g, λ g. g)
  | inr e ↦ rw (add_later oid v w vs e) (swap _ _ _ _ (Grants-add oid q v vs))
]
  where
    swap : (A B C D : Type 0) → (A ↔ (B ⊎ C)) → (D ⊎ A) ↔ (B ⊎ (D ⊎ C))
    swap A B C D h = (
      λ g. elim g [
        | inl d ↦ inr (inl d)
        | inr a ↦ elim (h.0 a) [ inl b ↦ inl b | inr c ↦ inr (inr c) ]
      ],
      λ g. elim g [
        | inl b ↦ inr (h.1 (inl b))
        | inr (inl d) ↦ inl d
        | inr (inr c) ↦ inr (h.1 (inr c))
      ],
    )

search-oid :
    (oid : List ℕ) (all : List View) (v : View)
    → IsOid oid
    → AllOids all
    → mib_view_search oid all ≡ some v
    → v.oid ≡ oid
unfolding mib_view_search
search-oid oid [] v h hs e = cc
search-oid oid (w ∷ all) v h hs e = elim (Bool-cases (is_zero (oid_cmp w.oid oid))) [
  | inl t ↦
      (let p : some w ≡ some v = rw t at e in
        let q : w ≡ v = cc in
        subst (λ (z : View). z.oid ≡ oid) q ((oid_cmp_zero_iff w.oid oid hs.0 h).0 t))
  | inr f ↦ search-oid oid all v h hs.1 (rw f at e)
]

pub create_found :
    (oid : List ℕ) (all : List View) (v : View)
    → mib_view_search oid all ≡ some v
    → view_create oid all ≡ (v, all)
unfolding view_create
create_found oid all v e = rw (view_create, e) refl

pub create_new :
    (oid : List ℕ) (all : List View)
    → mib_view_search oid all ≡ none
    → view_create oid all
      ≡ (record { addr = length all; oid = oid }, record { addr = length all; oid = oid } ∷ all)
unfolding view_create
create_new oid all e = rw (view_create, e) refl

-- The view of `oid`, and `mib_views` with it.
pub create-oid :
    (oid : List ℕ) (all : List View)
    → IsOid oid
    → AllOids all
    → ((view_create oid all).0.oid ≡ oid) × AllOids (view_create oid all).1
create-oid oid all h hs = elim (Option-cases (mib_view_search oid all)) [
  | inl e ↦ rw (create_new oid all e) (refl, (h, hs))
  | inr (v, e) ↦ rw (create_found oid all v e) (search-oid oid all v h hs e, hs)
]

-- The two outcomes of `community_view_bind`.
module _ (oid : List ℕ) (vs all : List View) where
  pub bind_covered :
      (community_view_filter oid vs).0 ≡ true
      → bind_views oid vs all ≡ ((community_view_filter oid vs).1, all)
  unfolding bind_views
  bind_covered e = rw (bind_views, e) refl

  pub bind_new :
      (community_view_filter oid vs).0 ≡ false
      → bind_views oid vs all ≡ (
        community_view_add oid (view_create oid all).0 (community_view_filter oid vs).1,
        (view_create oid all).1,
      )
  unfolding bind_views
  bind_new e = rw (bind_views, e) refl

-- After the registration of `oid` a list grants what it granted, and all below `oid`.
pub bind-Grants :
    (oid q : List ℕ) (vs all : List View)
    → IsOid oid
    → AllOids vs
    → AllOids all
    → Grants (bind_views oid vs all).0 q ↔ (Covers oid q ⊎ Grants vs q)
bind-Grants oid q vs all h hs ha =
    let f = filter-Filtered oid vs h hs in
    let r = community_view_filter oid vs in
    elim (Bool-cases r.0) [
      | inl e ↦ rw (bind_covered oid vs all e) (
        λ g. inr (f.from_old q g),
        λ g. elim g [
          | inl c ↦ Grants-trans r.1 oid q (f.covered e) c
          | inr g' ↦ elim (f.still q g') [
            | inl k ↦ k
            | inr c ↦ Grants-trans r.1 oid q (f.covered e) c
          ]
        ],
      )
      | inr e ↦
          let (add, back) = Grants-add oid q (view_create oid all).0 r.1 in
          let same : (view_create oid all).0.oid ≡ oid = (create-oid oid all h ha).0 in
          rw (bind_new oid vs all e) (
            λ g. elim (add g) [
              | inl c ↦ inl (subst (λ t. Covers t q) same c)
              | inr k ↦ inr (f.from_old q k)
            ],
            λ g. elim g [
              | inl c ↦ back (inl (subst (λ t. Covers t q) (sym same) c))
              | inr g' ↦ elim (f.still q g') [
                | inl k ↦ back (inr k)
                | inr c ↦ back (inl (subst (λ t. Covers t q) (sym same) c))
              ]
            ],
          )
    ]
