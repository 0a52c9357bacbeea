-- ===== src/View/Covering.antt =====
-- The test of access of core/mib_view.c against the prefix order.
use smartsnmp.Base.{sym}
use smartsnmp.Base.{false}
use smartsnmp.Base.{arith}
use smartsnmp.Base.{◌∙◌}
use smartsnmp.Base.{List, [], ◌∷◌, ℕ, ◌≡◌, ◌↔◌, ◌⊎◌, inl, inr, refl, true, All}
use smartsnmp.Base.Int.{pos, negsuc, is_pos}
use smartsnmp.Oid.{oid_cover}
use smartsnmp.Oid.Compare.{IsOid}
use smartsnmp.Oid.Cover.{Covers, oid_cover_iff}
use smartsnmp.View.{View}
use smartsnmp.View.Access.{view_cover}

-- The three results of `oid_cover`, each with what it says.
pub data Covering (a b : List ℕ) : Type 0 where
  above : Covers a b → oid_cover a b ≡ pos 1 → Covering a b
  below : Covers b a → (¬ Covers a b) → oid_cover a b ≡ negsuc 0 → Covering a b
  apart : (¬ Covers b a) → (¬ Covers a b) → oid_cover a b ≡ pos 0 → Covering a b

results :
    (a b : List ℕ)
    → (oid_cover a b ≡ pos 1) ⊎ ((oid_cover a b ≡ negsuc 0) ⊎ (oid_cover a b ≡ pos 0))
unfolding oid_cover
results a b = ground arith

pub covering : (a b : List ℕ) → IsOid a → IsOid b → Covering a b
covering a b ha hb = elim (results a b) [
  | inl e ↦ above ((oid_cover_iff a b ha hb).0.0 e) e
  | inr (inl e) ↦ (let (c, n) = (oid_cover_iff a b ha hb).1.0 e in below c n e)
  | inr (inr e) ↦ (let (m, n) = (oid_cover_iff a b ha hb).2.0 e in apart m n e)
]

pub Covers-trans : (a b c : List ℕ) → Covers a b → Covers b c → Covers a c
Covers-trans [] b c h k = tt
Covers-trans (x ∷ a) [] c h k = elim h [ ]
Covers-trans (x ∷ a) (y ∷ b) [] h k = elim k [ ]
Covers-trans (x ∷ a) (y ∷ b) (z ∷ c) (e, h) (f, k) = (e ∙ f, Covers-trans a b c h k)

pub Covers-refl : (a : List ℕ) → Covers a a
Covers-refl [] = tt
Covers-refl (x ∷ a) = (refl, Covers-refl a)

-- Some view of the list covers `q`.
abbrev pub Grants : List View → List ℕ → Type 0
Grants [] q = ⊥
Grants (v ∷ vs) q = Covers v.oid q ⊎ Grants vs q

pub Grants-trans : (vs : List View) (a b : List ℕ) → Grants vs a → Covers a b → Grants vs b
Grants-trans [] a b h k = elim h [ ]
Grants-trans (v ∷ vs) a b (inl h) k = inl (Covers-trans v.oid a b h k)
Grants-trans (v ∷ vs) a b (inr h) k = inr (Grants-trans vs a b h k)

-- The views name object identifiers of the program.
abbrev pub AllOids : List View → Type 0
AllOids vs = All (λ v. IsOid v.oid) vs

cover_step :
    (v : View) (vs : List View) (q : List ℕ)
    → oid_cover v.oid q ≡ pos 1
    → view_cover (v ∷ vs) q ≡ true
unfolding view_cover
cover_step v vs q e = rw (view_cover, e) refl

cover_skip :
    (v : View) (vs : List View) (q : List ℕ)
    → is_pos (oid_cover v.oid q) ≡ false
    → view_cover (v ∷ vs) q ≡ view_cover vs q
unfolding view_cover
cover_skip v vs q e = rw (view_cover, e) refl

-- Skipping a view that does not cover `q`.
skip_iff :
    (v : View) (vs : List View) (q : List ℕ)
    → is_pos (oid_cover v.oid q) ≡ false
    → (¬ Covers v.oid q)
    → ((view_cover vs q ≡ true) ↔ Grants vs q)
    → (view_cover (v ∷ vs) q ≡ true) ↔ Grants (v ∷ vs) q
skip_iff v vs q e n h = (
  λ t. inr (h.0 (sym (cover_skip v vs q e) ∙ t)),
  λ g. elim g [ inl c ↦ absurd (n c) | inr g' ↦ cover_skip v vs q e ∙ h.1 g' ],
)

pub view_cover_iff :
    (vs : List View) (q : List ℕ) → AllOids vs → IsOid q → (view_cover vs q ≡ true) ↔ Grants vs q
view_cover_iff [] q h hq = unfold view_cover in (λ e. cc, λ g. absurd g)
view_cover_iff (v ∷ vs) q h hq = elim (covering v.oid q h.0 hq) [
  | above c e ↦ (λ _. inl c, λ _. cover_step v vs q e)
  | below c n e ↦ skip_iff v vs q (rw e refl) n (view_cover_iff vs q h.1 hq)
  | apart m n e ↦ skip_iff v vs q (rw e refl) n (view_cover_iff vs q h.1 hq)
]
