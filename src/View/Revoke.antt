-- ===== src/View/Revoke.antt =====
-- `mib_community_unreg` and `mib_user_unreg` of core/mib_view.c.
use smartsnmp.View.Grants.{Includes}
use smartsnmp.Base.{arith}
use smartsnmp.Base.{
  ℕ, zero, suc, ◌+◌, List, [], ◌∷◌, ◌≡◌, inl, inr, refl, sym, subst, ◌∙◌, true, false, none, some,
  Bool-cases, Option-cases, All, length, if◌then◌else◌,
}
use smartsnmp.Oid.Compare.{IsOid}
use smartsnmp.View.{
  View, Community, Aces, aces_read, aces_write, Store, same_name, mib_community_search,
  mib_community_reg, reg, views_of,
}
use smartsnmp.View.Access.{list_empty, remove_views, unreg_loop, mib_community_unreg}
use smartsnmp.View.Covering.{Grants, Covers-refl}
use smartsnmp.View.Names.{search_here, search_later}
use smartsnmp.View.Grants.{IsStore}
use smartsnmp.View.Register.{Allowed, reg-Registered}

-- The list without the communities of a name.
unfoldable pub without : List ℕ → List Community → List Community
without name [] = []
without name (c ∷ cs) =
    let rest = without name cs in if same_name c.name name then rest else c ∷ rest

-- A run of `mib_community_unreg` can end only if no community of the name keeps read-only views.
abbrev pub Ends : List ℕ → Aces → Community → Type 0
Ends name aces_read c = Unit {0}
Ends name aces_write c = same_name c.name name ≡ true → list_empty c.ro_views ≡ true

-- One round of the loop.
module _ (fuel : ℕ) (name : List ℕ) (a : Aces) (c : Community) (cs : List Community) where
  other_round :
      same_name c.name name ≡ false
      → (r : List Community) → unreg_loop fuel name a cs ≡ some r
      → unreg_loop (suc fuel) name a (c ∷ cs) ≡ some (c ∷ r)
  unfolding unreg_loop
  other_round e r p = rw (unreg_loop, e, p) refl

  other_stuck :
      same_name c.name name ≡ false
      → unreg_loop fuel name a cs ≡ none
      → unreg_loop (suc fuel) name a (c ∷ cs) ≡ none
  unfolding unreg_loop
  other_stuck e p = rw (unreg_loop, e, p) refl

read_round :
    (fuel : ℕ) (name : List ℕ) (c : Community) (cs : List Community)
    → same_name c.name name ≡ true
    → unreg_loop (suc fuel) name aces_read (c ∷ cs) ≡ unreg_loop fuel name aces_read cs
unfolding unreg_loop remove_views list_empty
read_round fuel name c cs e = rw (unreg_loop, e) refl

write_round :
    (fuel : ℕ) (name : List ℕ) (c : Community) (cs : List Community)
    → same_name c.name name ≡ true
    → list_empty c.ro_views ≡ true
    → unreg_loop (suc fuel) name aces_write (c ∷ cs) ≡ unreg_loop fuel name aces_write cs
unfolding unreg_loop remove_views list_empty
write_round fuel name c cs e k = rw (unreg_loop, e, k) refl

kept_round :
    (fuel : ℕ) (name : List ℕ) (c : Community) (cs : List Community)
    → same_name c.name name ≡ true
    → list_empty c.ro_views ≡ false
    → unreg_loop (suc fuel) name aces_write (c ∷ cs)
      ≡ unreg_loop fuel name aces_write (remove_views aces_write c ∷ cs)
unfolding unreg_loop remove_views list_empty
kept_round fuel name c cs e k = rw (unreg_loop, e, k) refl

gone_round :
    (fuel : ℕ) (name : List ℕ) (a : Aces) (c : Community) (cs : List Community)
    → Ends name a c
    → same_name c.name name ≡ true
    → unreg_loop (suc fuel) name a (c ∷ cs) ≡ unreg_loop fuel name a cs
gone_round fuel name aces_read c cs k e = read_round fuel name c cs e
gone_round fuel name aces_write c cs k e = write_round fuel name c cs e (k e)

-- Where it ends, one round for each community and one more are enough, and exactly the communities of
-- the name are gone.
pub unreg_loop-without :
    (name : List ℕ) (a : Aces) (cs : List Community) (extra : ℕ)
    → All (Ends name a) cs
    → unreg_loop (length cs + 1 + extra) name a cs ≡ some (without name cs)
unfolding without
unreg_loop-without name a [] extra h = rw (one extra) (unfold unreg_loop in refl)
  where
    one : (n : ℕ) → 1 + n ≡ suc n
    one n = omega arith
unreg_loop-without name a (c ∷ cs) extra h = elim (Bool-cases (same_name c.name name)) [
  | inl e ↦
      rw (next, e)
        (gone_round (length cs + 1 + extra) name a c cs h.0 e
          ∙ unreg_loop-without name a cs extra h.1)
  | inr e ↦
      rw (next, e)
        (other_round (length cs + 1 + extra) name a c cs e _
          (unreg_loop-without name a cs extra h.1))
]
  where
    next : suc (length cs) + 1 + extra ≡ suc (length cs + 1 + extra)
    next = omega arith

still :
    (d : Community)
    → list_empty d.ro_views ≡ false
    → list_empty (remove_views aces_write d).ro_views ≡ false
unfolding remove_views
still d h = h

-- On a community with a read-only view the loop makes no progress, whatever the fuel.
unreg_stuck :
    (fuel : ℕ) (name : List ℕ) (cs : List Community) (c : Community)
    → mib_community_search name cs ≡ some c
    → list_empty c.ro_views ≡ false
    → unreg_loop fuel name aces_write cs ≡ none
unreg_stuck zero name cs c e k = unfold unreg_loop in refl
unreg_stuck (suc fuel) name [] c e k = unfold mib_community_search in cc
unreg_stuck (suc fuel) name (d ∷ cs) c e k = elim (Bool-cases (same_name d.name name)) [
  | inl t ↦
      let p : some d ≡ some c = sym (search_here name d cs t) ∙ e in
      let q : d ≡ c = cc in
      let kd : list_empty d.ro_views ≡ false = rw q k in
      kept_round fuel name d cs t kd
      ∙ unreg_stuck fuel name (remove_views aces_write d ∷ cs) (remove_views aces_write d)
          (again d t) (still d kd)
  | inr f ↦
      other_stuck fuel name aces_write d cs f
        (unreg_stuck fuel name cs c (sym (search_later name d cs f) ∙ e) k)
]
  where
    again :
        (d : Community)
        → same_name d.name name ≡ true
        → mib_community_search name (remove_views aces_write d ∷ cs)
          ≡ some (remove_views aces_write d)
    again d t = search_here name (remove_views aces_write d) cs (unfold remove_views in t)

not_empty : (vs : List View) (q : List ℕ) → Grants vs q → list_empty vs ≡ false
unfolding list_empty
not_empty [] q g = absurd g
not_empty (v ∷ vs) q g = refl

unreg_none :
    (fuel : ℕ) (name : List ℕ) (a : Aces) (st : Store)
    → unreg_loop fuel name a st.mib_communities ≡ none
    → mib_community_unreg fuel name a st ≡ none
unfolding mib_community_unreg
unreg_none fuel name a st e = rw (mib_community_unreg, e) refl

-- After any registration of a community on a well-formed store, taking its write access away never
-- returns: with no amount of fuel does the loop of `mib_community_unreg` end.
pub unreg_write_hangs :
    (oid name : List ℕ) (b : Aces) (st : Store)
    → IsOid oid
    → IsStore st
    → (fuel : ℕ) → mib_community_unreg fuel name aces_write (mib_community_reg oid name b st) ≡ none
unfolding mib_community_unreg mib_community_reg views_of
unreg_write_hangs oid name b st h hs fuel =
    let r = reg-Registered oid name b st.mib_communities st.mib_views h hs.communities hs.views in
    let g = (r.access name aces_read oid).1 (inl (refl, reads b, Covers-refl oid)) in
    elim (Option-cases
      (mib_community_search name (reg oid name b st.mib_communities st.mib_views).0)) [
        | inl e ↦ absurd (subst (λ o. Allowed o aces_read oid) e g)
        | inr (c, e) ↦
            let k = not_empty c.ro_views oid (subst (λ o. Allowed o aces_read oid) e g) in
            unreg_none fuel name aces_write (mib_community_reg oid name b st)
              (unreg_stuck fuel name (reg oid name b st.mib_communities st.mib_views).0 c e k)
      ]
  where
    reads : (b : Aces) → Includes b aces_read
    reads aces_read = tt
    reads aces_write = tt
