-- ===== src/Agentx/Ends/Loops.antt =====
-- The loops of core/agentx_msg_in.c end, and with them the decoder.
use smartsnmp.Base.{
  ℕ, zero, suc, ◌+◌, ◌≡◌, ◌<◌, arith, inl, inr, List, length, Bool-cases, ◌==◌, ◌||◌, subst, true,
  false, Bool, if◌then◌else◌,
}
use smartsnmp.Agentx.Decoder.{Parsed, ok, err, fault, out_of_fuel, Parser, bind}
use smartsnmp.Agentx.MsgIn.{
  XHead, Contents, ranges, bindings, pdu_hdr_parse, var_bind_alloc, search_range_alloc, parse_loop,
  contents_parse, agentx_decode,
}
use smartsnmp.Agentx.Ends.{EndsIn, Ends, Takes, EndsIn-more, EndsIn-bind, Ends-bind}
use smartsnmp.Agentx.Ends.Decode.{
  Takes-var_bind_alloc, Takes-search_range_alloc, Ends-pdu_hdr_parse,
}

-- One round, given that the rounds behind it end.
round-EndsIn :
    {A B : Type 0} (n : ℕ) (r : Parsed A) (again : A → Parser B)
    → EndsIn n r
    → ((a : A) (rest : List ℕ) → length rest < n → EndsIn (suc (length rest)) (again a rest))
    → EndsIn (suc n) (bind r again)
round-EndsIn n (ok a rest) again h g =
    EndsIn-more (suc (length rest)) (suc n) (again a rest) (g a rest h) (omega (arith, h))
round-EndsIn n (err e) again h g = tt
round-EndsIn n fault again h g = tt
round-EndsIn n out_of_fuel again h g = h

parse_loop-EndsIn :
    {A : Type 0} (alloc : Parser A)
    → Takes alloc
    → (fuel payload : ℕ) (bs : List ℕ) → length bs < fuel
    → EndsIn (suc (length bs)) (parse_loop fuel alloc payload bs)
unfolding parse_loop
parse_loop-EndsIn alloc t zero payload bs lt = absurd (omega (arith, lt))
parse_loop-EndsIn alloc t (suc fuel) payload bs lt = elim (Bool-cases (payload == 0)) [
  | inl e ↦ rw (parse_loop, e) (omega arith)
  | inr e ↦
      rw (parse_loop, e)
        (round-EndsIn (length bs) (alloc bs) _ (t bs (length bs) (omega arith)) λ a rest le.
          EndsIn-bind (suc (length rest)) (parse_loop fuel alloc _ rest) _
            (parse_loop-EndsIn alloc t fuel _ rest (omega (arith, le, lt)))
            λ later end_bs. omega arith)
]

loop-Ends :
    {A : Type 0} (alloc : Parser A) (payload : ℕ) (wrap : List A → Contents)
    → Takes alloc
    → (bs : List ℕ)
    → EndsIn
        (suc (length bs))
        (bind (parse_loop (length bs + 1) alloc payload bs) (λ xs. λ rest. ok (wrap xs) rest))
loop-Ends alloc payload wrap t bs =
    EndsIn-bind (suc (length bs)) (parse_loop (length bs + 1) alloc payload bs)
      (λ xs. λ rest. ok (wrap xs) rest)
      (parse_loop-EndsIn alloc t (length bs + 1) payload bs (omega arith)) λ xs rest. omega arith

EndsIn-if :
    {A : Type 0} (n : ℕ) (b : Bool) (r q : Parsed A)
    → EndsIn n r
    → EndsIn n q
    → EndsIn n (if b then r else q)
EndsIn-if n true r q h k = h
EndsIn-if n false r q h k = k

Ends-contents_parse : (head : XHead) → Ends (contents_parse head)
unfolding contents_parse
Ends-contents_parse head bs =
    let ph = head.pdu_hdr in
    EndsIn-if (suc (length bs)) (ph.type == 5 || ph.type == 6 || ph.type == 7) _ _
      (loop-Ends search_range_alloc ph.payload_length ranges Takes-search_range_alloc bs)
      (EndsIn-if (suc (length bs)) (ph.type == 8 || ph.type == 18) _ _
        (loop-Ends (var_bind_alloc ph.flags) ph.payload_length bindings
          (Takes-var_bind_alloc ph.flags) bs)
        (omega arith))

Ends-agentx_decode : Ends agentx_decode
unfolding agentx_decode
Ends-agentx_decode =
    Ends-bind pdu_hdr_parse _ Ends-pdu_hdr_parse
      λ head. Ends-bind (contents_parse head) _ (Ends-contents_parse head) λ c. (λ bs. omega arith)

-- Whatever the bytes received, `agentx_decode` ends: the fuel of its loops, one round for each byte that is left and one
-- more, never runs out.
pub agentx_decode_ends : (bs : List ℕ) → ¬ agentx_decode bs ≡ out_of_fuel
agentx_decode_ends bs e = subst (EndsIn (suc (length bs))) e (Ends-agentx_decode bs)
