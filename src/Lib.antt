-- ===== src/Lib.antt =====
-- SmartSNMP, an SNMP agent in C and Lua: a model of its C core (core/) and the properties that make
-- it correct.
--
-- The parts and how they interact. A datagram is decoded (core/snmp_msg_in.c) with the BER routines
-- of core/snmp_decoder.c; each variable binding names an object identifier, which
-- core/snmp_msg_proc.c looks up in the MIB tree of core/mib_tree.c, within the views that
-- core/mib_view.c keeps for a community or a user; a handler in Lua, which stands at an instance node
-- of the tree, gives the value, and core/snmp_encoder.c encodes it for the response.
--
-- Which file models which part:
--   Base: shared names, lists over the native numbers, the C `int` (Base/Int), bytes and 32-bit words
--     (Base/Bytes).
--   Ber/Integer, Ber/Length, Ber/ObjectId: the functions `ber_int_*`, `ber_uint_*`, `ber_length_*` and
--     `ber_oid_*` of core/snmp_encoder.c and core/snmp_decoder.c, under their names. A buffer is a list
--     of bytes; an `int` is its 32-bit pattern; what C leaves undefined is `none`. The encoders
--     are those of the branches under LITTLE_ENDIAN. Ber/Value: the dispatch over the tags of core/asn1.h.
--   Oid: `oid_cmp` and `oid_cover` of core/mib_tree.c over lists of 32-bit words; Oid/BinarySearch:
--     `oid_binary_search`, whose `low` is kept as `low + 1`.
--   Mib/Node: the nodes of the MIB tree, with the operations on the arrays of one group node;
--     Mib/Node/Spec: what a tree stands for, by linear search; Mib/Node/Arrays and Mib/Node/Slots: the
--     arrays against it. Mib/Insert: `mib_tree_instance_insert` and `mib_node_reg`. A change through a
--     pointer into the tree is the tree with that node replaced; a crash, a write behind the arrays
--     among them, is a value of its own.
--   Mib/Delete: `mib_tree_node_search`, `__mib_tree_delete` and `mib_node_unreg`. A pointer to a node in
--     the tree is the list of the indices that lead to it. The loop runs on fuel; `rounds` of
--     Mib/Delete/Walk, a number read off the subtree, is enough of it while the subtree has at most 64
--     levels, as the loop's stack has 64 places.
--   Mib/Search: `mib_instance_search` and `mib_tree_search`, with the call of a handler in Lua as a
--     parameter; a failed assertion, or a value larger than the union of `Variable`, is `none`. Mib/Stored: the
--     numbers of Lua, as they are cut to the types of C.
--   Mib/SearchNext: `mib_tree_search_next`, with its stack as a list. Its loop runs on fuel, one round more
--     than the deletion of the start node takes (`rounds` and one). Mib/SearchNext/Calls: the handlers in
--     the order of the tree, as the specification; Visit, Match, Rounds, Resume and Start: the
--     loop against it; Ordered, Result, Greater, Complete, Unmoved, Promises, Ahead, Words and
--     Answered: what is found.
--   View, View/Access: the lists of views, communities and users of core/mib_view.c, the functions under
--     their names. View/Filter, View/Bind, View/Names, View/Grants and View/Register follow a registration;
--     View/Sorted and View/Keeps its order; View/Revoke and View/Unreg the removal, whose loop runs on
--     fuel (one round for each community and one more), and View/Walk the iteration. A pointer to a view
--     is its number in the order of creation.
--   Snmp/Packet, Snmp/Parser, Snmp/MsgIn: the error codes and the datagram of core/snmp.h, and the
--     decoder of core/snmp_msg_in.c under the names of its functions: from the bytes behind the pointer
--     to a value, an error code, or `fault`, which is undefined behaviour. The loop over the bindings
--     runs on fuel, one round for each byte that is left and one more, and never runs out of it.
--     Snmp/Parser/Sound: what holds of every outcome, used by Snmp/MsgIn/Bindings, Headers and Accepted.
--   Snmp/MsgOut: the builder of core/snmp_msg_out.c. Snmp/MsgOut/Size, Behind, Version3 and Total: its sizes;
--     Snmp/RoundTrip: the decoder on what it builds.
--   Snmp/MsgProc, Snmp/MsgProc/GetNext, Snmp/MsgProc/Respond: GET, GETNEXT, BULKGET and SET of
--     core/snmp_msg_proc.c, from the views to the response, and Snmp/MsgProc/Dispatch the choice between
--     them. The loop over the views runs on fuel, one round for each view and one more, which is enough
--     where no view is twice in the list (Snmp/MsgProc/Loop); Snmp/MsgProc/Access, Writing and Onward:
--     what is asked and refused; Errors, Sizes, Answers and GetNext/Steps: the response. `none` is
--     undefined behaviour, a failed assertion or a loop that does not end.
--   Agentx, Agentx/Pdu: the headers of core/agentx.h and the builders of core/agentx_msg_out.c, on a
--     little-endian host, under their names. Agentx/Decoder and Agentx/MsgIn: core/agentx_decoder.c and the
--     decoder of core/agentx_msg_in.c; a read behind the buffer is `fault`. The loops over bindings and
--     ranges are one definition, on fuel: one round for each byte that is left and one more.
--     Agentx/Sizes: the sizes of the builders; Agentx/RoundTrip, Response, Bindings and Reply: the decoder
--     on what they write; Agentx/Ends: its loops end.
--   Tests: runs at concrete inputs.
--
-- Not modelled: the processing of the requests of AgentX (core/agentx_msg_proc.c), its sessions
-- (core/agentx.c) and the encoder of its values, the state of handlers between two calls, sockets and
-- event loops, logging, allocation failures, and the glue to Lua.
pub mod Base
pub mod Ber
pub mod Oid
pub mod Mib
pub mod View
pub mod Snmp
pub mod Agentx
pub mod Tests
