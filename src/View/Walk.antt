-- ===== src/View/Walk.antt =====
-- `mib_community_next_view` of core/mib_view.c as an iteration over a list of views.
use mathlib.Core.List.{append_assoc}
use smartsnmp.Base.{
  ℕ, zero, suc, ◌+◌, List, [], ◌∷◌, ◌++◌, ◌≡◌, ◌∙◌, refl, sym, ap, subst, false, none, some, Option,
  ◌==◌, ==_refl, All, length, arith,
}
use smartsnmp.View.{View}
use smartsnmp.View.Access.{view_after, next_view}
use smartsnmp.View.Filter.{Pairwise}

-- The views that repeated calls give, from the one after `v` on, at most `rounds` of them.
unfoldable pub walk : ℕ → Option View → List View → List View
walk zero v vs = []
walk (suc rounds) v vs = elim (next_view v vs) [ none ↦ [] | some w ↦ w ∷ walk rounds (some w) vs ]

abbrev pub Differ : View → View → Type 0
Differ v w = (v.addr == w.addr) ≡ false

module _ (v w x : View) (vs : List View) where
  after_here : v.addr ≡ w.addr → view_after v (w ∷ x ∷ vs) ≡ some x
  unfolding view_after
  after_here e = rw (view_after, e, ==_refl w.addr) refl

  after_later : (v.addr == w.addr) ≡ false → view_after v (w ∷ x ∷ vs) ≡ view_after v (x ∷ vs)
  unfolding view_after
  after_later e = rw (view_after, e) refl

Differ-sym : (v w : View) → Differ v w → Differ w v
Differ-sym v w h = ground (arith, h)

pub after_next :
    (pre : List View) (v x : View) (post : List View)
    → Pairwise Differ (pre ++ (v ∷ x ∷ post))
    → view_after v (pre ++ (v ∷ x ∷ post)) ≡ some x
after_next [] v x post h = after_here v v x post refl
after_next (w ∷ []) v x post h =
    after_later v w v (x ∷ post) (Differ-sym w v h.0.0) ∙ after_here v v x post refl
after_next (w ∷ w' ∷ pre) v x post h =
    after_later v w w' (pre ++ (v ∷ x ∷ post)) (Differ-sym w v (at_middle (w' ∷ pre) h.0))
    ∙ after_next (w' ∷ pre) v x post h.1
  where
    at_middle : (us : List View) → All (Differ w) (us ++ (v ∷ x ∷ post)) → Differ w v
    at_middle [] k = k.0
    at_middle (u ∷ us) k = at_middle us k.1

pub after_last :
    (pre : List View) (v : View)
    → Pairwise Differ (pre ++ (v ∷ []))
    → view_after v (pre ++ (v ∷ [])) ≡ none
unfolding view_after
after_last [] v h = refl
after_last (w ∷ []) v h = after_later v w v [] (Differ-sym w v h.0.0)
after_last (w ∷ w' ∷ pre) v h =
    after_later v w w' (pre ++ (v ∷ [])) (Differ-sym w v (at_end (w' ∷ pre) h.0))
    ∙ after_last (w' ∷ pre) v h.1
  where
    at_end : (us : List View) → All (Differ w) (us ++ (v ∷ [])) → Differ w v
    at_end [] k = k.0
    at_end (u ∷ us) k = at_end us k.1

walk_step :
    (n : ℕ) (v : Option View) (w : View) (vs : List View)
    → next_view v vs ≡ some w
    → walk (suc n) v vs ≡ w ∷ walk n (some w) vs
unfolding walk
walk_step n v w vs e = rw (walk, e) refl

walk_end :
    (n : ℕ) (v : Option View) (vs : List View) → next_view v vs ≡ none → walk (suc n) v vs ≡ []
unfolding walk
walk_end n v vs e = rw (walk, e) refl

walk_from :
    (pre : List View) (v : View) (post : List View) (extra : ℕ)
    → Pairwise Differ (pre ++ (v ∷ post))
    → walk (length post + 1 + extra) (some v) (pre ++ (v ∷ post)) ≡ post
walk_from pre v [] extra h =
    let one : 1 + extra ≡ suc extra = omega arith in
    rw one (walk_end extra (some v) _ (unfold next_view in after_last pre v h))
walk_from pre v (x ∷ post) extra h =
    let next : suc (length post) + 1 + extra ≡ suc (length post + 1 + extra) = omega arith in
    let shift : pre ++ (v ∷ x ∷ post) ≡ (pre ++ (v ∷ [])) ++ (x ∷ post) =
      sym (append_assoc pre (v ∷ []) (x ∷ post)) in
    rw next (
      walk_step (length post + 1 + extra) (some v) x (pre ++ (v ∷ x ∷ post))
        (unfold next_view in after_next pre v x post h)
      ∙ rw shift (
          ap (λ (t : List View). x ∷ t)
            (walk_from (pre ++ (v ∷ [])) x post extra (subst (Pairwise Differ) shift h))))

-- On a list without two entries of one view, calls that start from NULL give each view of the list
-- once, in its order, and then NULL.
pub walk-next_view :
    (vs : List View) (extra : ℕ) → Pairwise Differ vs → walk (length vs + 1 + extra) none vs ≡ vs
walk-next_view [] extra h =
    let one : 1 + extra ≡ suc extra = omega arith in
    rw one (walk_end extra none [] (unfold next_view in refl))
walk-next_view (v ∷ vs) extra h =
    let next : suc (length vs) + 1 + extra ≡ suc (length vs + 1 + extra) = omega arith in
    rw next (
      walk_step (length vs + 1 + extra) none v (v ∷ vs) (unfold next_view in refl)
      ∙ ap (λ (t : List View). v ∷ t) (walk_from [] v vs extra h))
