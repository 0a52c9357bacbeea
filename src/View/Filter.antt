-- ===== src/View/Filter.antt =====
-- `community_view_filter` of core/mib_view.c.
use smartsnmp.Base.{List, [], ◌∷◌, ℕ, ◌≡◌, ◌⊎◌, inl, inr, refl, true, false, All, Bool}
use smartsnmp.Base.Int.{pos, negsuc}
use smartsnmp.Oid.{oid_cover}
use smartsnmp.Oid.Compare.{IsOid}
use smartsnmp.Oid.Cover.{Covers}
use smartsnmp.View.{View, community_view_filter}
use smartsnmp.View.Covering.{above, below, apart, covering, Covers-trans, Grants, AllOids}

module _ (oid : List ℕ) (v : View) (vs : List View) where
  filter_above : oid_cover v.oid oid ≡ pos 1 → community_view_filter oid (v ∷ vs) ≡ (true, v ∷ vs)
  unfolding community_view_filter
  filter_above e = rw (community_view_filter, e) refl

  filter_below :
      oid_cover v.oid oid ≡ negsuc 0
      → community_view_filter oid (v ∷ vs) ≡ community_view_filter oid vs
  unfolding community_view_filter
  filter_below e = rw (community_view_filter, e) refl

  filter_apart :
      oid_cover v.oid oid ≡ pos 0
      → community_view_filter oid (v ∷ vs)
        ≡ ((community_view_filter oid vs).0, v ∷ (community_view_filter oid vs).1)
  unfolding community_view_filter
  filter_apart e = rw (community_view_filter, e) refl

-- Neither covers the other.
abbrev pub Apart : List ℕ → View → Type 0
Apart oid v = (¬ Covers oid v.oid) × (¬ Covers v.oid oid)

-- Every two of the list, in their order, are related.
abbrev pub Pairwise : (View → View → Type 0) → List View → Type 0
Pairwise R [] = Unit {0}
Pairwise R (v ∷ vs) = All (R v) vs × Pairwise R vs

-- What a run of the filter tells: all of a list that is kept satisfies what all did, what is dropped is
-- covered by `oid`, and `oid` is covered or apart from all.
pub record Filtered (oid : List ℕ) (vs : List View) (r : Bool × List View) : Type 1 where
  pub all_kept : (P : View → Type 0) → All P vs → All P r.1
  pub pairs_kept : (R : View → View → Type 0) → Pairwise R vs → Pairwise R r.1
  pub from_old : (q : List ℕ) → Grants r.1 q → Grants vs q
  pub still : (q : List ℕ) → Grants vs q → Grants r.1 q ⊎ Covers oid q
  pub covered : r.0 ≡ true → Grants r.1 oid
  pub apart_all : r.0 ≡ false → All (Apart oid) r.1

Filtered-nil : (oid : List ℕ) → Filtered oid [] (community_view_filter oid [])
unfolding community_view_filter
Filtered-nil oid = record {
  all_kept = λ P h. tt;
  pairs_kept = λ R h. tt;
  from_old = λ q g. g;
  still = λ q g. inl g;
  covered = λ e. cc;
  apart_all = λ e. tt;
}

Filtered-covered :
    (oid : List ℕ) (v : View) (vs : List View)
    → Covers v.oid oid
    → Filtered oid (v ∷ vs) (true, v ∷ vs)
Filtered-covered oid v vs c = record {
  all_kept = λ P h. h;
  pairs_kept = λ R h. h;
  from_old = λ q g. g;
  still = λ q g. inl g;
  covered = λ e. inl c;
  apart_all = λ e. cc;
}

Filtered-dropped :
    (oid : List ℕ) (v : View) (vs : List View) (r : Bool × List View)
    → Covers oid v.oid
    → Filtered oid vs r
    → Filtered oid (v ∷ vs) r
Filtered-dropped oid v vs r c f = record {
  all_kept = λ P h. f.all_kept P h.1;
  pairs_kept = λ R h. f.pairs_kept R h.1;
  from_old = λ q g. inr (f.from_old q g);
  still = λ q g. elim g [ inl k ↦ inr (Covers-trans oid v.oid q c k) | inr g' ↦ f.still q g' ];
  covered = f.covered;
  apart_all = f.apart_all;
}

Filtered-kept :
    (oid : List ℕ) (v : View) (vs : List View) (r : Bool × List View)
    → Apart oid v
    → Filtered oid vs r
    → Filtered oid (v ∷ vs) (r.0, v ∷ r.1)
Filtered-kept oid v vs r a f = record {
  all_kept = λ P h. (h.0, f.all_kept P h.1);
  pairs_kept = λ R h. (f.all_kept (R v) h.0, f.pairs_kept R h.1);
  from_old = λ q g. elim g [ inl k ↦ inl k | inr g' ↦ inr (f.from_old q g') ];
  still = λ q g. elim g [
    | inl k ↦ inl (inl k)
    | inr g' ↦ elim (f.still q g') [ inl g'' ↦ inl (inr g'') | inr k ↦ inr k ]
  ];
  covered = λ e. inr (f.covered e);
  apart_all = λ e. (a, f.apart_all e);
}

pub filter-Filtered :
    (oid : List ℕ) (vs : List View)
    → IsOid oid
    → AllOids vs
    → Filtered oid vs (community_view_filter oid vs)
filter-Filtered oid [] h hs = Filtered-nil oid
filter-Filtered oid (v ∷ vs) h hs = elim (covering v.oid oid hs.0 h) [
  | above c e ↦ rw (filter_above oid v vs e) (Filtered-covered oid v vs c)
  | below c n e ↦
      rw (filter_below oid v vs e) (Filtered-dropped oid v vs _ c (filter-Filtered oid vs h hs.1))
  | apart m n e ↦
      rw (filter_apart oid v vs e) (Filtered-kept oid v vs _ (m, n) (filter-Filtered oid vs h hs.1))
]
