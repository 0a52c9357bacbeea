-- ===== src/Oid/Cover.antt =====
-- `oid_cover` against the prefix order.
use smartsnmp.Base.{
  ℕ, zero, suc, sym, Bool, ◌&&◌, leb, le→leb, if◌then◌else◌, ◌≡◌, ◌≤◌, ◌↔◌, refl, true, false,
  arith,
}
use smartsnmp.Base.{List, [], ◌∷◌, ◌++◌, length, take, All}
use smartsnmp.Base.Int.{pos, negsuc, is_zero}
use smartsnmp.Base.Bytes.{IsU32}
use smartsnmp.Oid.{oid_cmp, oid_cover}
use smartsnmp.Oid.Compare.{IsOid, oid_cmp_zero_iff}

-- `a` is a prefix of `b`: the subtree at `a` holds `b`.
abbrev pub Covers : List ℕ → List ℕ → Type 0
Covers [] b = Unit {0}
Covers (x ∷ s) [] = ⊥
Covers (x ∷ s) (y ∷ t) = (x ≡ y) × Covers s t

pub Covers-append : (a t : List ℕ) → Covers a (a ++ t)
Covers-append [] t = tt
Covers-append (x ∷ a) t = (refl, Covers-append a t)

pub Covers-suffix : (a b : List ℕ) → Covers a b → (t : List ℕ) × (b ≡ a ++ t)
Covers-suffix [] b h = (b, refl)
Covers-suffix (x ∷ a) [] h = elim h [ ]
Covers-suffix (x ∷ a) (y ∷ b) (e, h) = let (t, p) = Covers-suffix a b h in (t, cc (p, e))

Covers-length : (a b : List ℕ) → Covers a b → length a ≤ length b
Covers-length [] b h = omega arith
Covers-length (x ∷ a) [] h = elim h [ ]
Covers-length (x ∷ a) (y ∷ b) (e, h) = omega (arith, Covers-length a b h)

take-Covers : (a b : List ℕ) → a ≡ take (length a) b → Covers a b
take-Covers [] b e = tt
take-Covers (x ∷ a) [] e = cc
take-Covers (x ∷ a) (y ∷ b) e = (cc, take-Covers a b (cc))

Covers-take : (a b : List ℕ) → Covers a b → a ≡ take (length a) b
Covers-take [] b h = refl
Covers-take (x ∷ a) [] h = elim h [ ]
Covers-take (x ∷ a) (y ∷ b) (e, h) = cc (Covers-take a b h)

take-words : (n : ℕ) (b : List ℕ) → All IsU32 b → All IsU32 (take n b)
take-words zero b h = tt
take-words (suc n) [] h = tt
take-words (suc n) (x ∷ b) (hx, h) = (hx, take-words n b h)

length-take-le : (n : ℕ) (b : List ℕ) → length (take n b) ≤ length b
length-take-le zero b = omega arith
length-take-le (suc n) [] = omega arith
length-take-le (suc n) (x ∷ b) = omega (arith, length-take-le n b)

take-IsOid : (n : ℕ) {b : List ℕ} → IsOid b → IsOid (take n b)
take-IsOid n {b} h = record {
  words = take-words n b h.words;
  short = omega (arith, length-take-le n b, h.short);
}

and_iff : (p q : Bool) → ((p && q) ≡ true) ↔ ((p ≡ true) × (q ≡ true))
and_iff true q = ground arith
and_iff false q = ground arith

-- The three results, for any two tests.
branches {ℓ} :
    {P Q : Type ℓ} (p q : Bool)
    → ((p ≡ true) ↔ P)
    → ((q ≡ true) ↔ Q)
    → (((if p then pos 1 else (if q then negsuc 0 else pos 0)) ≡ pos 1) ↔ P)
      × (((if p then pos 1 else (if q then negsuc 0 else pos 0)) ≡ negsuc 0) ↔ (Q × (¬ P)))
      × (((if p then pos 1 else (if q then negsuc 0 else pos 0)) ≡ pos 0) ↔ ((¬ Q) × (¬ P)))
branches true q hp hq = (
  (λ _. hp.0 refl, λ _. refl),
  (λ e. cc, λ h. absurd (h.1 (hp.0 refl))),
  (λ e. cc, λ h. absurd (h.1 (hp.0 refl))),
)
branches false true hp hq = (
  (λ e. cc, λ h. cc (hp.1 h)),
  (λ _. (hq.0 refl, λ h. cc (hp.1 h)), λ _. refl),
  (λ e. cc, λ h. absurd (h.0 (hq.0 refl))),
)
branches false false hp hq = (
  (λ e. cc, λ h. cc (hp.1 h)),
  (λ e. cc, λ h. cc (hq.1 h.0)),
  (λ _. (λ h. cc (hq.1 h), λ h. cc (hp.1 h)), λ _. refl),
)

module _ (a b : List ℕ) (ha : IsOid a) (hb : IsOid b) where
  -- The test of the first branch.
  first_test :
      ((leb (length a) (length b) && is_zero (oid_cmp a (take (length a) b))) ≡ true) ↔ Covers a b
  first_test = (
    λ h.
        take-Covers a b
          ((oid_cmp_zero_iff a _ ha (take-IsOid (length a) hb)).0 ((and_iff _ _).0 h).1),
    λ h. (and_iff _ _).1 (
      le→leb _ _ (Covers-length a b h),
      (oid_cmp_zero_iff a _ ha (take-IsOid (length a) hb)).1 (Covers-take a b h),
    ),
  )

  second_test :
      ((leb (length b) (length a) && is_zero (oid_cmp (take (length b) a) b)) ≡ true) ↔ Covers b a
  second_test = (
    λ h.
        take-Covers b a
          (sym ((oid_cmp_zero_iff _ b (take-IsOid (length b) ha) hb).0 ((and_iff _ _).0 h).1)),
    λ h. (and_iff _ _).1 (
      le→leb _ _ (Covers-length b a h),
      (oid_cmp_zero_iff _ b (take-IsOid (length b) ha) hb).1 (sym (Covers-take b a h)),
    ),
  )

  -- `oid_cover` returns 1 exactly if the first is a prefix of the second, -1 exactly if the second is
  -- a prefix of the first and the first is none of the second, and 0 exactly if neither is a prefix
  -- of the other.
  pub oid_cover_iff :
      ((oid_cover a b ≡ pos 1) ↔ Covers a b)
      × ((oid_cover a b ≡ negsuc 0) ↔ (Covers b a × (¬ Covers a b)))
      × ((oid_cover a b ≡ pos 0) ↔ ((¬ Covers b a) × (¬ Covers a b)))
  unfolding oid_cover
  oid_cover_iff = branches _ _ first_test second_test
