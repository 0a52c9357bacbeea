-- ===== src/Tests/Agentx.antt =====
-- PDUs of core/agentx_msg_out.c at concrete inputs.
use smartsnmp.Agentx.{XPduHdr, XVarBind, word32, x_pdu_hdr, x_objid, x_octstr}
use smartsnmp.Base.{false, ◌<◌, ◌≡◌, refl, ℕ, List, [], ◌∷◌, ◌++◌, some, arith}
use smartsnmp.Agentx.Bindings.{AreReadBack, none_left, one_more, read_back}
use smartsnmp.Agentx.Decoder.{out_of_fuel, ok}
use smartsnmp.Agentx.Ends.Loops.{agentx_decode_ends}
use smartsnmp.Agentx.MsgIn.{has_context, agentx_decode, bindings, network_order, fields_parse}
use smartsnmp.Agentx.Pdu.{
  region_pdu, agentx_response_pdu, next_packet, session_hdr, instance_registration, x_context,
  context_size, x_upper, upper_size, x_kind, data_size, vb_size, vbs_size, at_least, data_bytes,
  vb_bytes, vbs_bytes,
}
use smartsnmp.Agentx.Reply.{reply_head, agentx_decode-response}
use smartsnmp.Agentx.RoundTrip.{IsInternet, IsHdr, fields_parse-x_pdu_hdr}
use smartsnmp.Agentx.Sizes.{IsPdu, response-IsPdu, region-IsPdu}
use smartsnmp.Ber.Value.{word, octets}

abbrev hdr : XPduHdr
hdr = record {
  version = 1;
  type = 5;
  flags = 0;
  session_id = 300;
  transaction_id = 7;
  packet_id = 9;
  payload_length = 28;
}

abbrev sys_name : List ℕ
sys_name = 1 ∷ 3 ∷ 6 ∷ 1 ∷ 2 ∷ 1 ∷ 1 ∷ 5 ∷ 0 ∷ []

abbrev text_binding : XVarBind
text_binding = record { oid = sys_name; val_type = 4; value = 97 ∷ 98 ∷ 99 ∷ [] }

abbrev int_binding : XVarBind
int_binding = record { oid = sys_name; val_type = 2; value = word32 1000 }

abbrev two_bindings : List XVarBind
two_bindings = text_binding ∷ int_binding ∷ []

abbrev response_bytes : List ℕ
response_bytes =
    x_pdu_hdr (session_hdr hdr 18 0 88)
    ++ ((0 ∷ 0 ∷ 0 ∷ 0 ∷ 0 ∷ 0 ∷ 0 ∷ 0 ∷ [])
        ++ ((4 ∷ 0 ∷ 0 ∷ 0 ∷ [])
            ++ (x_objid sys_name
                ++ ((3 ∷ 0 ∷ 0 ∷ 0 ∷ 97 ∷ 98 ∷ 99 ∷ 0 ∷ [])
                    ++ ((2 ∷ 0 ∷ 0 ∷ 0 ∷ []) ++ (x_objid sys_name ++ (232 ∷ 3 ∷ 0 ∷ 0 ∷ [])))))))

response_run : agentx_response_pdu hdr 0 0 two_bindings ≡ some response_bytes
unfolding agentx_response_pdu session_hdr x_pdu_hdr x_objid x_octstr vbs_size vb_size data_size
    x_kind vbs_bytes vb_bytes data_bytes at_least
response_run = refl

two_bindings_small : vbs_size two_bindings < 0xffff_ff00
unfolding vbs_size vb_size data_size x_kind
two_bindings_small = omega arith

response-IsPdu_example : IsPdu response_bytes
response-IsPdu_example =
    response-IsPdu hdr 0 0 two_bindings response_bytes two_bindings_small response_run

abbrev registered : XPduHdr × List ℕ
registered = (
  next_packet hdr,
  x_pdu_hdr (session_hdr (next_packet hdr) 3 1 44) ++ ((5 ∷ 127 ∷ 0 ∷ 0 ∷ []) ++ x_objid sys_name),
)

region_run : region_pdu 3 5 hdr sys_name [] 127 0 0 ≡ some registered
unfolding region_pdu next_packet session_hdr x_pdu_hdr x_objid x_context context_size x_upper
    upper_size instance_registration
region_run = refl

region-IsPdu_example : IsPdu (
    x_pdu_hdr (session_hdr (next_packet hdr) 3 1 44)
    ++ ((5 ∷ 127 ∷ 0 ∷ 0 ∷ []) ++ x_objid sys_name))
region-IsPdu_example =
    region-IsPdu 3 5 hdr (next_packet hdr) sys_name [] 127 0 0
      (x_pdu_hdr (session_hdr (next_packet hdr) 3 1 44)
        ++ ((5 ∷ 127 ∷ 0 ∷ 0 ∷ []) ++ x_objid sys_name))
      region_run

hdr-IsHdr : IsHdr hdr
unfolding network_order
hdr-IsHdr = record {
  version = omega arith;
  type = omega arith;
  flags = omega arith;
  session_id = omega arith;
  transaction_id = omega arith;
  packet_id = omega arith;
  payload_length = omega arith;
  host_order = refl;
}

header_run : fields_parse (x_pdu_hdr hdr ++ (1 ∷ [])) ≡ ok hdr (1 ∷ [])
header_run = fields_parse-x_pdu_hdr hdr (1 ∷ []) hdr-IsHdr

sys_name-IsInternet : IsInternet sys_name
sys_name-IsInternet = record {
  prefix = 2;
  subs = 1 ∷ 1 ∷ 5 ∷ 0 ∷ [];
  split = refl;
  byte = omega arith;
  positive = omega arith;
  few = omega arith;
  words = (omega arith, (omega arith, (omega arith, (omega arith, tt))));
}

two_values : AreReadBack two_bindings (
    record { oid = sys_name; val_type = 4; value = some (octets (97 ∷ 98 ∷ 99 ∷ [])) }
    ∷ record { oid = sys_name; val_type = 2; value = some (word 1000) }
    ∷ [])
unfolding read_back x_kind
two_values =
    one_more text_binding (some (octets (97 ∷ 98 ∷ 99 ∷ []))) (int_binding ∷ []) _
      record { type = omega arith; oid = sys_name-IsInternet; stored = (omega arith, refl) }
      (one_more int_binding (some (word 1000)) [] []
        record {
          type = omega arith;
          oid = sys_name-IsInternet;
          stored = (1000, omega arith, refl, refl);
        }
        none_left)

hdr-no_context : has_context hdr.flags ≡ false
unfolding has_context
hdr-no_context = refl

agentx_decode-response_example :
    agentx_decode response_bytes
    ≡ ok
        (
          reply_head hdr 0 0 (vbs_size two_bindings),
          bindings (
              record { oid = sys_name; val_type = 4; value = some (octets (97 ∷ 98 ∷ 99 ∷ [])) }
              ∷ record { oid = sys_name; val_type = 2; value = some (word 1000) }
              ∷ []),
        )
        []
agentx_decode-response_example =
    agentx_decode-response hdr 0 0 two_bindings _ response_bytes hdr-IsHdr hdr-no_context
      (omega arith) (omega arith) two_values two_bindings_small response_run

agentx_decode_ends_example : ¬ agentx_decode response_bytes ≡ out_of_fuel
agentx_decode_ends_example = agentx_decode_ends response_bytes
