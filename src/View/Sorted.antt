-- ===== src/View/Sorted.antt =====
-- The order of the view lists of core/mib_view.c.
use smartsnmp.Base.{
  ℕ, ◌<◌, List, [], ◌∷◌, ◌≡◌, ◌⊎◌, inl, inr, refl, sym, subst, true, false, Bool-cases, All, arith,
}
use smartsnmp.Base.Int.{is_pos}
use smartsnmp.Base.Bytes.{IsU32}
use smartsnmp.Oid.{oid_cmp}
use smartsnmp.Oid.Compare.{IsOid, IsSmall, LexLt, oid_cmp_order}
use smartsnmp.Oid.Cover.{Covers}
use smartsnmp.View.{View, view_create, community_view_add, community_view_filter, bind_views}
use smartsnmp.View.Covering.{AllOids, Covers-refl}
use smartsnmp.View.Filter.{Apart, Pairwise, filter-Filtered}
use smartsnmp.View.Bind.{add_here, add_later, All-add, bind_covered, bind_new, create-oid}

-- In a list, a view is before the next ones in the order of the object identifiers, and covers
-- none of them.
abbrev pub Before : View → View → Type 0
Before v w = LexLt v.oid w.oid × (¬ Covers v.oid w.oid)

abbrev pub IsViews : List View → Type 0
IsViews vs = Pairwise Before vs

abbrev pub Small : View → Type 0
Small v = IsSmall v.oid

words-small : (a : List ℕ) → All (λ x. x < 0x8000_0000) a → All IsU32 a
words-small [] h = tt
words-small (x ∷ a) h = (omega (arith, h.0), words-small a h.1)

pub small-IsOid : (a : List ℕ) → IsSmall a → IsOid a
small-IsOid a h = record { words = words-small a h.words; short = h.short }

pub All-IsSmall : (vs : List View) → All Small vs → AllOids vs
All-IsSmall [] h = tt
All-IsSmall (v ∷ vs) h = (small-IsOid v.oid h.0, All-IsSmall vs h.1)

LexLt-trans : (a b c : List ℕ) → LexLt a b → LexLt b c → LexLt a c
LexLt-trans [] [] c h k = absurd h
LexLt-trans [] (y ∷ b) [] h k = absurd k
LexLt-trans [] (y ∷ b) (z ∷ c) h k = tt
LexLt-trans (x ∷ a) [] c h k = absurd h
LexLt-trans (x ∷ a) (y ∷ b) [] h k = absurd k
LexLt-trans (x ∷ a) (y ∷ b) (z ∷ c) h k = ground (arith, LexLt-trans a b c)

LexLt-cases : (a b : List ℕ) → LexLt a b ⊎ ((a ≡ b) ⊎ LexLt b a)
LexLt-cases [] [] = inr (inl refl)
LexLt-cases [] (y ∷ b) = inl tt
LexLt-cases (x ∷ a) [] = inr (inr tt)
LexLt-cases (x ∷ a) (y ∷ b) = ground (arith, LexLt-cases a b)

-- Apart and not greater is before.
LexLt-smaller :
    (oid : List ℕ) (w : View)
    → IsSmall oid
    → IsSmall w.oid
    → Apart oid w
    → is_pos (oid_cmp w.oid oid) ≡ false
    → LexLt w.oid oid
LexLt-smaller oid w h hw a e = elim (LexLt-cases w.oid oid) [
  | inl l ↦ l
  | inr (inl p) ↦ absurd (a.0 (subst (λ t. Covers oid t) (sym p) (Covers-refl oid)))
  | inr (inr g) ↦
      let t : is_pos (oid_cmp w.oid oid) ≡ true = (oid_cmp_order w.oid oid hw h).1.1 g in cc
]

-- Behind a greater view all are greater.
All-later :
    (oid : List ℕ) (v w : View) (vs : List View)
    → v.oid ≡ oid
    → LexLt oid w.oid
    → All (Before w) vs
    → All (Apart oid) vs
    → All (Before v) vs
All-later oid v w [] e l b a = tt
All-later oid v w (x ∷ vs) e l b a = (
  (
    subst (λ t. LexLt t x.oid) (sym e) (LexLt-trans oid w.oid x.oid l b.0.0),
    subst (λ t. ¬ Covers t x.oid) (sym e) a.0.0,
  ),
  All-later oid v w vs e l b.1 a.1,
)

add-IsViews :
    (oid : List ℕ) (v : View) (vs : List View)
    → v.oid ≡ oid
    → IsSmall oid
    → All Small vs
    → All (Apart oid) vs
    → IsViews vs
    → IsViews (community_view_add oid v vs)
unfolding community_view_add
add-IsViews oid v [] e h hs a s = (tt, tt)
add-IsViews oid v (w ∷ vs) e h hs a s = elim (Bool-cases (is_pos (oid_cmp w.oid oid))) [
  | inl t ↦
      let l : LexLt oid w.oid = (oid_cmp_order w.oid oid hs.0 h).1.0 t in
      rw (add_here oid v w vs t) (
        (
          (subst (λ z. LexLt z w.oid) (sym e) l, subst (λ z. ¬ Covers z w.oid) (sym e) a.0.0),
          All-later oid v w vs e l s.0 a.1,
        ),
        s,
      )
  | inr f ↦
      let l : LexLt w.oid oid = LexLt-smaller oid w h hs.0 a.0 f in
      rw (add_later oid v w vs f) (
        All-add (Before w) oid v vs
            (subst (λ z. LexLt w.oid z) (sym e) l, subst (λ z. ¬ Covers w.oid z) (sym e) a.0.1) s.0,
        add-IsViews oid v vs e h hs.1 a.1 s.1,
      )
]

-- `community_view_bind` keeps a list of views sorted, none of them covered by another.
pub bind-IsViews :
    (oid : List ℕ) (vs all : List View)
    → IsSmall oid
    → All Small vs
    → AllOids all
    → IsViews vs
    → IsViews (bind_views oid vs all).0
bind-IsViews oid vs all h hs ha s =
    let o = small-IsOid oid h in
    let f = filter-Filtered oid vs o (All-IsSmall vs hs) in
    let kept = f.pairs_kept Before s in
    elim (Bool-cases (community_view_filter oid vs).0) [
      | inl e ↦ rw (bind_covered oid vs all e) kept
      | inr e ↦ rw (bind_new oid vs all e) (
          add-IsViews oid (view_create oid all).0 (community_view_filter oid vs).1
            (create-oid oid all o ha).0 h (f.all_kept Small hs) (f.apart_all e) kept)
    ]
