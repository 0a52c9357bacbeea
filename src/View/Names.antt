-- ===== src/View/Names.antt =====
-- The communities of core/mib_view.c by name: search, creation and change in place.
use smartsnmp.Base.{
  ℕ, List, [], ◌∷◌, ◌≡◌, inl, inr, refl, sym, ◌∙◌, true, false, none, some, Bool-cases,
  if◌then◌else◌, All, ==_refl, arith,
}
use smartsnmp.View.{Community, same_name, mib_community_search, community_create, put_community}

pub same→eq : (a b : List ℕ) → same_name a b ≡ true → a ≡ b
unfolding same_name
same→eq [] [] e = refl
same→eq [] (y ∷ b) e = cc
same→eq (x ∷ a) [] e = cc
same→eq (x ∷ a) (y ∷ b) e = ground (arith, same→eq a b)

pub same_refl : (a : List ℕ) → same_name a a ≡ true
unfolding same_name
same_refl [] = refl
same_refl (x ∷ a) = rw (==_refl x, same_refl a) refl

module _ (name : List ℕ) (c : Community) (cs : List Community) where
  pub search_here : same_name c.name name ≡ true → mib_community_search name (c ∷ cs) ≡ some c
  unfolding mib_community_search
  search_here e = rw (mib_community_search, e) refl

  pub search_later :
      same_name c.name name ≡ false
      → mib_community_search name (c ∷ cs) ≡ mib_community_search name cs
  unfolding mib_community_search
  search_later e = rw (mib_community_search, e) refl

module _ (c d : Community) (cs : List Community) where
  put_here : same_name d.name c.name ≡ true → put_community c (d ∷ cs) ≡ c ∷ cs
  unfolding put_community
  put_here e = rw (put_community, e) refl

  put_later : same_name d.name c.name ≡ false → put_community c (d ∷ cs) ≡ d ∷ put_community c cs
  unfolding put_community
  put_later e = rw (put_community, e) refl

-- What is found has the name, and every property of all communities.
pub found-name :
    (name : List ℕ) (cs : List Community) (c : Community)
    → mib_community_search name cs ≡ some c
    → c.name ≡ name
unfolding mib_community_search
found-name name [] c e = cc
found-name name (d ∷ cs) c e = elim (Bool-cases (same_name d.name name)) [
  | inl t ↦
      (let p : some d ≡ some c = sym (search_here name d cs t) ∙ e in
        let q : d ≡ c = cc in rw (← q) (same→eq d.name name t))
  | inr f ↦ found-name name cs c (sym (search_later name d cs f) ∙ e)
]

pub found-All :
    (P : Community → Type 0) (name : List ℕ) (cs : List Community) (c : Community)
    → mib_community_search name cs ≡ some c
    → All P cs
    → P c
unfolding mib_community_search
found-All P name [] c e h = cc
found-All P name (d ∷ cs) c e h = elim (Bool-cases (same_name d.name name)) [
  | inl t ↦
      (let p : some d ≡ some c = sym (search_here name d cs t) ∙ e in
        let q : d ≡ c = cc in rw (← q) h.0)
  | inr f ↦ found-All P name cs c (sym (search_later name d cs f) ∙ e) h.1
]

pub All-put :
    (P : Community → Type 0) (c : Community) (cs : List Community)
    → P c
    → All P cs
    → All P (put_community c cs)
unfolding put_community
All-put P c [] p h = tt
All-put P c (d ∷ cs) p h = elim (Bool-cases (same_name d.name c.name)) [
  | inl t ↦ rw (put_here c d cs t) (p, h.1)
  | inr f ↦ rw (put_later c d cs f) (h.0, All-put P c cs p h.1)
]

-- The change of a community that is in the list.
pub search-put :
    (name : List ℕ) (c d : Community) (cs : List Community)
    → mib_community_search c.name cs ≡ some d
    → mib_community_search name (put_community c cs)
      ≡ (if same_name c.name name then some c else mib_community_search name cs)
search-put name c d [] e = unfold mib_community_search in cc
search-put name c d (b ∷ cs) e = elim (Bool-cases (same_name b.name c.name)) [
  | inl t ↦ rw (put_here c b cs t) (elim (Bool-cases (same_name c.name name)) [
    | inl u ↦ rw u (search_here name c cs u)
    | inr u ↦
        (let w : same_name b.name name ≡ false = rw (same→eq b.name c.name t) u in
          rw u (search_later name c cs u ∙ sym (search_later name b cs w)))
  ])
  | inr f ↦
      (let rest = search-put name c d cs (sym (search_later c.name b cs f) ∙ e) in
        rw (put_later c b cs f) (elim (Bool-cases (same_name b.name name)) [
          | inl u ↦
              (let n : same_name c.name name ≡ false = differs u f in
                rw n (search_here name b (put_community c cs) u ∙ sym (search_here name b cs u)))
          | inr u ↦
              search_later name b (put_community c cs) u ∙ rest ∙ rw (search_later name b cs u) refl
        ]))
]
  where
    differs :
        same_name b.name name ≡ true
        → same_name b.name c.name ≡ false
        → same_name c.name name ≡ false
    differs u f = elim (Bool-cases (same_name c.name name)) [
      | inl v ↦
          (let p : b.name ≡ c.name = same→eq b.name name u ∙ sym (same→eq c.name name v) in
            let q : same_name b.name c.name ≡ true = rw p (same_refl c.name) in cc)
      | inr v ↦ v
    ]

-- The two outcomes of `community_create`.
module _ (name : List ℕ) (cs : List Community) where
  pub create_old :
      (c : Community) → mib_community_search name cs ≡ some c → community_create name cs ≡ (c, cs)
  unfolding community_create
  create_old c e = rw (community_create, e) refl

  pub create_new :
      mib_community_search name cs ≡ none
      → community_create name cs ≡ (
        record { name = name; ro_views = []; rw_views = [] },
        record { name = name; ro_views = []; rw_views = [] } ∷ cs,
      )
  unfolding community_create
  create_new e = rw (community_create, e) refl
