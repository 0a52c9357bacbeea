-- ===== src/Mib/SearchNext/Result.antt =====
-- What GETNEXT answers: a reply that is accepted, or END_OF_MIB_VIEW where none of the replies is.
use smartsnmp.Mib.SearchNext.Calls.{answer_step}
use smartsnmp.Base.{ap}
use smartsnmp.Base.{sym}
use smartsnmp.Base.{subst}
use smartsnmp.Base.{arith}
use smartsnmp.Base.{
  ℕ, ◌≡◌, ◌≤◌, ◌∙◌, ◌⊎◌, refl, inl, inr, Bool-cases, Option-cases, some, true, false,
}
use smartsnmp.Base.{List, [], ◌∷◌, ◌++◌, length, All, ltb, ltb-false}
use smartsnmp.Base.Int.{is_zero}
use smartsnmp.Oid.{oid_cover}
use smartsnmp.Mib.Search.{Lua, Variable, Instance, mib_tag_valid, mib_instance_search}
use smartsnmp.Mib.SearchNext.{
  NextRes, Verdict, failed, next, end_of_view, broken, missing, taken, judge, ask, proceed,
}
use smartsnmp.Mib.SearchNext.Calls.{Call, answer}

-- A reply that is accepted: its instance, in the view or above it, and at most 64 sub-identifiers in all.
pub record Taken (lua_pcall : Lua) (view : List ℕ) (call : Call) (r : NextRes) : Type 0 where
  pub inst : Instance
  pub var : Variable
  pub asked : mib_instance_search lua_pcall call.callback 0xa1 var call.inst_id ≡ some inst
  pub valid : mib_tag_valid inst.var.tag ≡ true
  pub oid : r.oid ≡ call.base ++ inst.inst_id
  pub tag : r.var.tag ≡ inst.var.tag
  pub short : length r.oid ≤ 64
  pub seen : is_zero (oid_cover view r.oid) ≡ false

-- A call with some variable, whose reply was not accepted.
abbrev pub Missed : Lua → List ℕ → Call → Type 0
Missed lua_pcall view call =
    (var var' : Variable) × (ask lua_pcall view call.callback var call.base call.inst_id
      ≡ missing var')

judge-taken :
    (view base : List ℕ) (i : Instance) (r : NextRes)
    → judge view base (some i) ≡ taken r
    → (mib_tag_valid i.var.tag ≡ true)
      × (r.oid ≡ base ++ i.inst_id)
      × (r.var.tag ≡ i.var.tag)
      × (length r.oid ≤ 64)
      × (is_zero (oid_cover view r.oid) ≡ false)
unfolding judge
judge-taken view base i r e = elim (Bool-cases (mib_tag_valid i.var.tag)) [
  | inr f ↦ (let e' = rw f at e in ground arith)
  | inl t ↦ elim (Bool-cases (ltb 64 (length (base ++ i.inst_id)))) [
    | inl l ↦ (let e' = rw (t, l) at e in ground arith)
    | inr l ↦ elim (Bool-cases (is_zero (oid_cover view (base ++ i.inst_id)))) [
      | inl z ↦ (let e' = rw (t, l, z) at e in ground arith)
      | inr z ↦
          (let e' = rw (t, l, z) at e in
            let q : record { oid = base ++ i.inst_id; err_stat = i.err_stat; var = i.var } ≡ r =
              cc in
            subst
              (λ x.
                (mib_tag_valid i.var.tag ≡ true)
                × (x.oid ≡ base ++ i.inst_id)
                × (x.var.tag ≡ i.var.tag)
                × (length x.oid ≤ 64)
                × (is_zero (oid_cover view x.oid) ≡ false))
              q (t, refl, refl, ltb-false 64 (length (base ++ i.inst_id)) l, z))
    ]
  ]
]

module _ (lua_pcall : Lua) (view orig_oid : List ℕ) where
  ask-Taken :
      (call : Call) (var : Variable) (r : NextRes)
      → ask lua_pcall view call.callback var call.base call.inst_id ≡ taken r
      → Taken lua_pcall view call r
  unfolding ask
  ask-Taken call var r e =
      elim (Option-cases (mib_instance_search lua_pcall call.callback 0xa1 var call.inst_id)) [
        | inl n ↦ (let e' = rw (ask, n) at e in unfold judge in ground arith)
        | inr (i, n) ↦
            let (valid, oid, tag, short, seen) =
              judge-taken view call.base i r (rw (ask, n) at e) in
            record {
              inst = i;
              var = var;
              asked = n;
              valid = valid;
              oid = oid;
              tag = tag;
              short = short;
              seen = seen;
            }
      ]

  pub Verdict-cases :
      (v : Verdict)
      → (v ≡ broken) ⊎ (((var : Variable) × (v ≡ missing var)) ⊎ ((r : NextRes) × (v ≡ taken r)))
  Verdict-cases broken = inl refl
  Verdict-cases (missing var) = inr (inl (var, refl))
  Verdict-cases (taken r) = inr (inr (r, refl))

  -- The result is a reply to one of the calls, or the end of the view when all of them have been made.
  pub answer-cases :
      (P : Call → Type 0) (calls : List Call) (var : Variable) (r : NextRes)
      → All P calls
      → answer lua_pcall view calls (λ v. next (end_of_view orig_oid v)) var ≡ next r
      → (All (Missed lua_pcall view) calls × (r.oid ≡ orig_oid) × (r.var.tag ≡ 0x82))
        ⊎ ((call : Call) × P call × Taken lua_pcall view call r)
  unfolding answer end_of_view proceed
  answer-cases P [] var r h e =
      let q : end_of_view orig_oid var ≡ r = cc in
      inl (tt, ap (λ (x : NextRes). x.oid) (sym q), ap (λ (x : NextRes). x.var.tag) (sym q))
  answer-cases P (call ∷ calls) var r h e =
      elim (Verdict-cases (ask lua_pcall view call.callback var call.base call.inst_id)) [
        | inl b ↦
            (let e' : failed ≡ next r =
                sym (answer_step lua_pcall view call calls _ var broken b) ∙ e in
              cc)
        | inr (inl (v, m)) ↦
            elim (answer-cases P calls v r h.1
              (sym (answer_step lua_pcall view call calls _ var (missing v) m) ∙ e)) [
                | inl (all, q, t) ↦ inl (((var, v, m), all), q, t)
                | inr t ↦ inr t
              ]
        | inr (inr (s, t)) ↦
            (let e' : next s ≡ next r =
                sym (answer_step lua_pcall view call calls _ var (taken s) t) ∙ e in
              let q : s ≡ r = cc in
              inr (call, h.0, subst (Taken lua_pcall view call) q (ask-Taken call var s t)))
      ]
