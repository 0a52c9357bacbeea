-- ===== src/Mib/SearchNext/Unmoved.antt =====
-- What a handler replies to GETNEXT, and whether it is accepted, does not hang on the variable of the request.
use smartsnmp.Base.{◌%◌}
use smartsnmp.Base.{
  ℕ, ◌%◌, ◌≡◌, ◌∙◌, refl, sym, ap, inl, inr, none, some, Bool, true, false, ◌&&◌, if◌then◌else◌,
  ltb, length, List, ◌++◌,
}
use smartsnmp.Base.{Bool-cases, Option-cases}
use smartsnmp.Base.Int.{ℤ, pos, is_zero}
use smartsnmp.Oid.{oid_cover}
use smartsnmp.Ber.Value.{Value, fits_union}
use smartsnmp.Mib.Stored.{to_int, stored}
use smartsnmp.Mib.Search.{
  Lua, Variable, Instance, mib_tag_valid, mib_instance_search, req_val, has_value,
}
use smartsnmp.Mib.SearchNext.{Verdict, broken, missing, taken, judge, ask}
use smartsnmp.Mib.SearchNext.Calls.{Call}
use smartsnmp.Mib.SearchNext.Result.{Missed}

-- Whatever the variable, the reply is not accepted.
abbrev pub Declines : Lua → List ℕ → Call → Type 0
Declines lua_pcall view call =
    (var : Variable)
    → (var' : Variable) × (ask lua_pcall view call.callback var call.base call.inst_id
        ≡ missing var')

is_missing : Verdict → Bool
is_missing broken = false
is_missing (missing var) = true
is_missing (taken r) = false

missing-is_missing : (v : Verdict) → is_missing v ≡ true → (var : Variable) × (v ≡ missing var)
unfolding is_missing
missing-is_missing broken h = cc
missing-is_missing (missing var) h = (var, refl)
missing-is_missing (taken r) h = cc

abbrev reply_of : List ℕ → ℤ → ℕ → Value → Instance
reply_of inst_id err_stat tag v = record {
  err_stat = err_stat;
  inst_id = inst_id;
  var = record { tag = tag; value = v };
}

is_missing-judge :
    (view base : List ℕ) (i : Instance)
    → is_missing (judge view base (some i)) ≡ (
        if mib_tag_valid i.var.tag
        then (if ltb 64 (length (base ++ i.inst_id))
            then false
            else is_zero (oid_cover view (base ++ i.inst_id)))
        else true)
unfolding is_missing judge
is_missing-judge view base i = elim (Bool-cases (mib_tag_valid i.var.tag)) [
  | inr f ↦ rw (judge, f) refl
  | inl t ↦ elim (Bool-cases (ltb 64 (length (base ++ i.inst_id)))) [
    | inl l ↦ rw (judge, t, l) refl
    | inr l ↦ elim (Bool-cases (is_zero (oid_cover view (base ++ i.inst_id)))) [
      | inl z ↦ rw (judge, t, l, z) refl
      | inr z ↦ rw (judge, t, l, z) refl
    ]
  ]
]

same_judge :
    (view base inst_id : List ℕ) (err_stat : ℤ) (tag : ℕ) (v w : Value)
    → is_missing (judge view base (some (reply_of inst_id err_stat tag v)))
      ≡ is_missing (judge view base (some (reply_of inst_id err_stat tag w)))
same_judge view base inst_id err_stat tag v w =
    is_missing-judge view base (reply_of inst_id err_stat tag v)
    ∙ sym (is_missing-judge view base (reply_of inst_id err_stat tag w))

same_verdict :
    (lua_pcall : Lua) (view base inst_id : List ℕ) (c : ℕ) (var w : Variable)
    → is_missing (ask lua_pcall view c var base inst_id)
      ≡ is_missing (ask lua_pcall view c w base inst_id)
unfolding ask mib_instance_search req_val
same_verdict lua_pcall view base inst_id c var w =
    elim (Option-cases (lua_pcall c 0xa1 inst_id none)) [
      | inl n ↦
          rw (ask, mib_instance_search, n)
            (same_judge view base inst_id (pos 0) 0x80 var.value w.value)
      | inr (r, n) ↦
          elim (Bool-cases (is_zero (to_int r.err_stat) && mib_tag_valid (r.tag % 256))) [
            | inr f ↦
                rw (ask, mib_instance_search, n, f)
                  (same_judge view base inst_id (to_int r.err_stat) (r.tag % 256) var.value w.value)
            | inl t ↦ elim (Bool-cases (has_value (r.tag % 256) && fits_union (stored r.value))) [
              | inr g ↦ rw (ask, mib_instance_search, n, t, g) refl
              | inl g ↦ rw (ask, mib_instance_search, n, t, g) refl
            ]
          ]
    ]

pub Missed-Declines :
    (lua_pcall : Lua) (view : List ℕ) (call : Call)
    → Missed lua_pcall view call
    → Declines lua_pcall view call
unfolding is_missing
Missed-Declines lua_pcall view call (var, var', e) w =
    missing-is_missing _ (
      sym (same_verdict lua_pcall view call.base call.inst_id call.callback var w)
      ∙ ap is_missing e)
