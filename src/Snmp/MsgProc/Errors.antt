-- ===== src/Snmp/MsgProc/Errors.antt =====
-- The error that a response of core/snmp_msg_proc.c reports.
use smartsnmp.Base.Int.{pattern32}
use smartsnmp.Base.{
  ℕ, ◌+◌, ◌≡◌, ◌∙◌, subst, ◌<◌, refl, List, [], ◌∷◌, Option, none, some, Bool, true, false, not,
  ◌&&◌, ◌==◌, length, arith, Bool-cases, inl, inr, All, if◌then◌else◌,
}
use smartsnmp.Base.Int.{ℤ, is_zero}
use smartsnmp.Base.Bytes.{u32_mod}
use smartsnmp.Snmp.Packet.{VarBind}
use smartsnmp.Snmp.MsgProc.Respond.{Answer, mark_error, reply_loop}
use smartsnmp.Snmp.MsgProc.Sizes.{Step, bind-some, some-inj}

-- The error statuses after the rounds, as far as they go.
unfoldable pub statuses : (VarBind → Answer → Option Answer) → List VarBind → Answer → List ℤ
statuses round [] r = []
statuses round (vb ∷ vbs) r = elim (round vb r) [
  | none ↦ []
  | some r' ↦ r'.ret.err_stat ∷ statuses round vbs r'
]

abbrev pub one_later : Option (ℤ × ℕ) → Option (ℤ × ℕ)
one_later none = none
one_later (some (e, i)) = some (e, i + 1)

-- The first status that is an error, and its place.
unfoldable pub first_error : List ℤ → Option (ℤ × ℕ)
first_error [] = none
first_error (e ∷ es) =
    let later = first_error es in if is_zero e then one_later later else some (e, 0)

-- A status is not 0 as an `int` either.
abbrev pub IsInt : ℤ → Type 0
IsInt e = is_zero e ≡ false → (pattern32 e == 0) ≡ false

-- What a round does to the two error fields.
pub record Marks (r r' : Answer) : Type 0 where
  pub kept : (r.err_stat == 0) ≡ false → (r'.err_stat ≡ r.err_stat) × (r'.err_idx ≡ r.err_idx)
  pub passed :
      is_zero r'.ret.err_stat ≡ true → (r'.err_stat ≡ r.err_stat) × (r'.err_idx ≡ r.err_idx)
  pub marked :
      (r.err_stat == 0) ≡ true
      → is_zero r'.ret.err_stat ≡ false
      → (r'.err_stat ≡ pattern32 r'.ret.err_stat) × (r'.err_idx ≡ r'.vb_in_cnt)

Step-Marks : (id : List ℕ) (r r' : Answer) → Step id r r' → Marks r r'
unfolding mark_error
Step-Marks id r r' s = record {
  kept = λ h. (
    s.stat ∙ rw (mark_error, h, and_false (not (is_zero r'.ret.err_stat))) refl,
    s.idx ∙ rw (mark_error, h, and_false (not (is_zero r'.ret.err_stat))) refl,
  );
  passed = λ h. (s.stat ∙ rw (mark_error, h) refl, s.idx ∙ rw (mark_error, h) refl);
  marked = λ h z. (s.stat ∙ rw (mark_error, h, z) refl, s.idx ∙ rw (mark_error, h, z) refl);
}
  where
    and_false : (b : Bool) → (b && false) ≡ false
    and_false true = refl
    and_false false = refl

-- Without an error the two fields stay; else they are the first error and the number of its binding.
abbrev pub Reports : Option (ℤ × ℕ) → Answer → Answer → Type 0
Reports none r r' = (r'.err_stat ≡ r.err_stat) × (r'.err_idx ≡ r.err_idx)
Reports (some (e, i)) r r' = (r'.err_stat ≡ pattern32 e) × (r'.err_idx ≡ r.vb_in_cnt + i + 1)

Reports-later :
    (r r1 r' : Answer)
    → r1.err_stat ≡ r.err_stat
    → r1.err_idx ≡ r.err_idx
    → r1.vb_in_cnt ≡ r.vb_in_cnt + 1
    → (x : Option (ℤ × ℕ)) → Reports x r1 r'
    → Reports (one_later x) r r'
Reports-later r r1 r' a b cnt none (p, q) = (p ∙ a, q ∙ b)
Reports-later r r1 r' a b cnt (some (e, i)) (p, q) = (p, omega arith)

-- A loop whose rounds mark errors.
module _ (round : VarBind → Answer → Option Answer)
    (step : (vb : VarBind) (r r' : Answer)
      → round vb r ≡ some r'
      → (id : List ℕ) × Step id r r') where
  -- Once an error is marked, it stays.
  marked_stays :
      (vbs : List VarBind) (r r' : Answer)
      → reply_loop round vbs r ≡ some r'
      → (r.err_stat == 0) ≡ false
      → (r'.err_stat ≡ r.err_stat) × (r'.err_idx ≡ r.err_idx)
  unfolding reply_loop
  marked_stays [] r r' e h = rw (some-inj r r' e) (refl, refl)
  marked_stays (vb ∷ vbs) r r' e h =
      let (r1, e1, f) = bind-some (round vb r) (reply_loop round vbs) r' e in
      let (id, s) = step vb r r1 e1 in
      let (a, b) = (Step-Marks id r r1 s).kept h in
      let (a', b') = marked_stays vbs r1 r' f (rw a h) in (a' ∙ a, b' ∙ b)

  statuses_step :
      (vb : VarBind) (vbs : List VarBind) (r r1 : Answer)
      → round vb r ≡ some r1
      → statuses round (vb ∷ vbs) r ≡ r1.ret.err_stat ∷ statuses round vbs r1
  unfolding statuses
  statuses_step vb vbs r r1 e = rw (statuses, e) refl

  -- A request that came without an error is answered with the first error among its bindings.
  pub reply_loop-first_error :
      (vbs : List VarBind) (r r' : Answer)
      → reply_loop round vbs r ≡ some r'
      → (r.err_stat == 0) ≡ true
      → r.vb_in_cnt + length vbs < u32_mod
      → All IsInt (statuses round vbs r)
      → Reports (first_error (statuses round vbs r)) r r'
  unfolding reply_loop first_error
  reply_loop-first_error [] r r' e h lt ints =
      unfold first_error statuses in rw (some-inj r r' e) (refl, refl)
  reply_loop-first_error (vb ∷ vbs) r r' e h lt ints =
      let (r1, e1, f) = bind-some (round vb r) (reply_loop round vbs) r' e in
      let (id, s) = step vb r r1 e1 in
      let m = Step-Marks id r r1 s in
      let cnt : r1.vb_in_cnt ≡ r.vb_in_cnt + 1 = omega (arith, s.cnt) in
      let (int, more) : All IsInt (r1.ret.err_stat ∷ statuses round vbs r1) =
        subst (All IsInt) (statuses_step vb vbs r r1 e1) ints in
      rw (statuses_step vb vbs r r1 e1) (elim (Bool-cases (is_zero r1.ret.err_stat)) [
        | inl z ↦
            let (a, b) = m.passed z in
            let back = reply_loop-first_error vbs r1 r' f (rw a h) (omega arith) more in
            rw (first_error, z)
              (Reports-later r r1 r' a b cnt (first_error (statuses round vbs r1)) back)
        | inr z ↦
            let (a, b) = m.marked h z in
            let (a', b') = marked_stays vbs r1 r' f (rw a (int z)) in
            rw (first_error, z) (a' ∙ a, omega arith)
      ])
