-- ===== src/Agentx/Ends/Decode.antt =====
-- The parts of the decoder of core/agentx_msg_in.c, and the whole of it: its loops end.
use smartsnmp.Agentx.{XPduHdr}
use smartsnmp.Base.{ℕ, zero, suc, ◌%◌, arith, [], ◌∷◌, length, ◌==◌, ◌&&◌}
use smartsnmp.Agentx.Decoder.{
  ◌>>=◌, ◌>>◌, Parsed, ok, err, fault, out_of_fuel, Parser, bind, check, peek, read_byte, read32,
  read16, take_bytes, skip, read_words, oid_dec_try, oid_dec, agentx_value_dec_try,
  agentx_value_dec,
}
use smartsnmp.Agentx.Ends.{
  EndsIn, Ends, Takes, EndsIn-more, Ends-bind, Takes-bind, Takes-Ends, Ends-check, Ends-if,
  Ends-peek, Ends-read_byte, Ends-read32, Takes-read16, Ends-take_bytes, Ends-skip,
}
use smartsnmp.Agentx.MsgIn.{
  int32, int16, has_context, context_parse, additional_parse, fields_parse, pdu_hdr_parse,
  var_bind_alloc, bound_parse, search_range_alloc,
}
use smartsnmp.Agentx.Pdu.{XKind, x_int, x_int64, x_octets, x_oid, x_none, x_kind}

Ends-read_words : (n : ℕ) → Ends (read_words n)
unfolding read_words
Ends-read_words zero = (λ bs. omega arith)
Ends-read_words (suc n) =
    Ends-bind read32 _ Ends-read32
      λ x. Ends-bind (read_words n) _ (Ends-read_words n) λ xs. (λ bs. omega arith)

Ends-oid_dec_try : Ends oid_dec_try
unfolding oid_dec_try
Ends-oid_dec_try =
    Ends-bind read_byte _ Ends-read_byte
      λ n. Ends-bind read_byte _ Ends-read_byte λ prefix. (λ bs. omega arith)

Ends-oid_dec : Ends oid_dec
unfolding oid_dec
Ends-oid_dec = Ends-bind read_byte _ Ends-read_byte λ n.
    Ends-bind read_byte _ Ends-read_byte λ prefix. Ends-bind (skip 2) _ (Ends-skip 2) λ _.
      Ends-if (n == 0 && prefix == 0) _ _ ((λ bs. omega arith))
        (Ends-bind (read_words n) _ (Ends-read_words n) λ subs. (λ bs. omega arith))

Takes-read_byte : Takes read_byte
unfolding read_byte
Takes-read_byte [] n le = tt
Takes-read_byte (b ∷ bs) n le = omega (arith, le)

Takes-oid_dec : Takes oid_dec
unfolding oid_dec
Takes-oid_dec = Takes-bind read_byte _ Takes-read_byte λ n.
    Ends-bind read_byte _ Ends-read_byte λ prefix. Ends-bind (skip 2) _ (Ends-skip 2) λ _.
      Ends-if (n == 0 && prefix == 0) _ _ ((λ bs. omega arith))
        (Ends-bind (read_words n) _ (Ends-read_words n) λ subs. (λ bs. omega arith))

Ends-value_dec_try : (k : XKind) → Ends (agentx_value_dec_try k)
unfolding agentx_value_dec_try
Ends-value_dec_try x_int = (λ bs. omega arith)
Ends-value_dec_try x_int64 = (λ bs. omega arith)
Ends-value_dec_try x_octets = Ends-read32
Ends-value_dec_try x_oid = Ends-oid_dec_try
Ends-value_dec_try x_none = (λ bs. omega arith)

Ends-value_dec : (k : XKind) → Ends (agentx_value_dec k)
unfolding agentx_value_dec
Ends-value_dec x_int = Ends-bind read32 _ Ends-read32 λ w. (λ bs. omega arith)
Ends-value_dec x_int64 =
    Ends-bind read32 _ Ends-read32 λ low. Ends-bind read32 _ Ends-read32 λ high. (λ bs. omega arith)
Ends-value_dec x_octets = Ends-bind read32 _ Ends-read32 λ n.
    Ends-bind (peek (take_bytes n)) _ (Ends-peek (take_bytes n) (Ends-take_bytes n))
      λ str. Ends-bind (skip _) _ (Ends-skip _) λ _. (λ bs. omega arith)
Ends-value_dec x_oid = Ends-bind oid_dec _ Ends-oid_dec λ ids. (λ bs. omega arith)
Ends-value_dec x_none = (λ bs. omega arith)

Takes-int16 : (flags : ℕ) → Takes (int16 flags)
unfolding int16
Takes-int16 flags = Takes-bind read16 _ Takes-read16 λ w. (λ bs. omega arith)

Ends-int32 : (flags : ℕ) → Ends (int32 flags)
unfolding int32
Ends-int32 flags = Ends-bind read32 _ Ends-read32 λ w. (λ bs. omega arith)

pub Takes-var_bind_alloc : (flags : ℕ) → Takes (var_bind_alloc flags)
unfolding var_bind_alloc
Takes-var_bind_alloc flags = Takes-bind (int16 flags) _ (Takes-int16 flags) λ type.
    Ends-bind (skip 2) _ (Ends-skip 2) λ _.
      Ends-bind (peek oid_dec_try) _ (Ends-peek oid_dec_try Ends-oid_dec_try) λ oid_len.
        Ends-bind (check _ _) _ (Ends-check _ _) λ _. Ends-bind oid_dec _ Ends-oid_dec λ ids.
          Ends-bind (peek (agentx_value_dec_try (x_kind (type % 256)))) _
            (Ends-peek (agentx_value_dec_try (x_kind (type % 256)))
              (Ends-value_dec_try (x_kind (type % 256))))
            λ val_len. Ends-bind (check _ _) _ (Ends-check _ _) λ _.
              Ends-bind (agentx_value_dec (x_kind (type % 256))) _
                (Ends-value_dec (x_kind (type % 256))) λ value. (λ bs. omega arith)

EndsIn-then :
    {A B : Type 0} (n : ℕ) (r : Parsed A) (f : A → Parser B)
    → EndsIn (suc n) r
    → ((a : A) → Takes (f a))
    → EndsIn n (bind r f)
EndsIn-then n (ok a rest) f h g = g a rest n (omega (arith, h))
EndsIn-then n (err e) f h g = tt
EndsIn-then n fault f h g = tt
EndsIn-then n out_of_fuel f h g = h

Ends-then :
    {A B : Type 0} (p : Parser A) (f : A → Parser B)
    → Ends p
    → ((a : A) → Takes (f a))
    → Takes (p >>= f)
Ends-then p f h g bs n le =
    EndsIn-then n (p bs) f (EndsIn-more (suc (length bs)) (suc n) (p bs) (h bs) (omega (arith, le)))
      g

Ends-include : Ends (skip 2 >> read_byte)
Ends-include = Ends-bind (skip 2) _ (Ends-skip 2) λ _. Ends-read_byte

Takes-bound_parse : Takes bound_parse
unfolding bound_parse
Takes-bound_parse =
    Ends-then (peek oid_dec_try) _ (Ends-peek oid_dec_try Ends-oid_dec_try) λ oid_len.
      Ends-then (check _ _) _ (Ends-check _ _) λ _.
        Ends-then (peek (skip 2 >> read_byte)) _ (Ends-peek (skip 2 >> read_byte) Ends-include)
          λ include. Takes-bind oid_dec _ Takes-oid_dec λ ids. (λ bs. omega arith)

pub Takes-search_range_alloc : Takes search_range_alloc
unfolding search_range_alloc
Takes-search_range_alloc =
    Takes-bind bound_parse _ Takes-bound_parse λ s.
      Ends-bind bound_parse _ (Takes-Ends bound_parse Takes-bound_parse) λ e. (λ bs. omega arith)

Ends-fields_parse : Ends fields_parse
unfolding fields_parse
Ends-fields_parse = Ends-bind read_byte _ Ends-read_byte λ version.
    Ends-bind read_byte _ Ends-read_byte λ type. Ends-bind read_byte _ Ends-read_byte λ flags.
      Ends-bind read_byte _ Ends-read_byte λ reserved.
        Ends-bind (int32 flags) _ (Ends-int32 flags) λ session_id.
          Ends-bind (int32 flags) _ (Ends-int32 flags) λ transaction_id.
            Ends-bind (int32 flags) _ (Ends-int32 flags) λ packet_id.
              Ends-bind (int32 flags) _ (Ends-int32 flags) λ payload_length. (λ bs. omega arith)

Ends-context_parse : (ph : XPduHdr) → Ends (context_parse ph)
unfolding context_parse
Ends-context_parse ph =
    Ends-if (has_context ph.flags) _ _
      (Ends-bind (int32 ph.flags) _ (Ends-int32 ph.flags) λ n.
        Ends-bind (check _ _) _ (Ends-check _ _) λ _.
          Ends-bind (peek (take_bytes n)) _ (Ends-peek (take_bytes n) (Ends-take_bytes n))
            λ context. Ends-bind (skip _) _ (Ends-skip _) λ _. (λ bs. omega arith))
      (λ bs. omega arith)

Ends-int16 : (flags : ℕ) → Ends (int16 flags)
Ends-int16 flags = Takes-Ends (int16 flags) (Takes-int16 flags)

Ends-additional_parse : (ph : XPduHdr) → Ends (additional_parse ph)
unfolding additional_parse
Ends-additional_parse ph =
    Ends-if (ph.type == 2) _ _
      (Ends-bind (peek read_byte) _ (Ends-peek read_byte Ends-read_byte)
        λ reason. Ends-bind (skip 4) _ (Ends-skip 4) λ _. (λ bs. omega arith))
      (Ends-if (ph.type == 7) _ _
        (Ends-bind (int16 ph.flags) _ (Ends-int16 ph.flags) λ non_rep.
          Ends-bind (int16 ph.flags) _ (Ends-int16 ph.flags) λ max_rep. (λ bs. omega arith))
        (Ends-if (ph.type == 18) _ _
          (Ends-bind (int32 ph.flags) _ (Ends-int32 ph.flags) λ sys_up_time.
            Ends-bind (int16 ph.flags) _ (Ends-int16 ph.flags) λ error.
              Ends-bind (int16 ph.flags) _ (Ends-int16 ph.flags) λ index. (λ bs. omega arith))
          (λ bs. omega arith)))

pub Ends-pdu_hdr_parse : Ends pdu_hdr_parse
unfolding pdu_hdr_parse
Ends-pdu_hdr_parse = Ends-bind fields_parse _ Ends-fields_parse λ ph.
    Ends-bind (context_parse ph) _ (Ends-context_parse ph)
      λ c. Ends-bind (additional_parse c.1) _ (Ends-additional_parse c.1) λ u. (λ bs. omega arith)
