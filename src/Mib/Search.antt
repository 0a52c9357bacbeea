-- ===== src/Mib/Search.antt =====
-- GET, `mib_instance_search` and `mib_tree_search` of core/mib_tree.c. The handlers in Lua are the
-- parameter `lua_pcall`: for a callback, a request, a rest of an object identifier and, for SET, a value
-- with its tag it gives the reply on the Lua stack, or `none` where the call fails.
pub mod Get
pub mod Registered
use smartsnmp.Mib.Stored.{to_int, to_oids, stored}
use smartsnmp.Ber.Value.{Value, fits_union}
use smartsnmp.Base.{leb, length}
use smartsnmp.Base.{ℕ, ◌%◌, List, [], ◌∷◌, Option, none, some, Bool, true, false, ◌&&◌, ◌||◌, not}
use smartsnmp.Base.{if◌then◌else◌, ◌==◌, ltb}
use smartsnmp.Base.Int.{ℤ, pos, is_zero, is_pos}
use smartsnmp.Oid.{oid_cover}
use smartsnmp.Mib.Node.{Node, group_node, instance_node, found, vacant, null, slot_of}

-- `Variable`; `length(var)` and the union are a value.
pub record Variable : Type 0 where
  pub tag : ℕ
  pub value : Value

-- `tag(var) = t;`
abbrev pub retag : ℕ → Variable → Variable
retag t var = record { tag = t; value = var.value }

-- What a handler leaves on the Lua stack; the value is read as the tag says, and a negative element of an object
-- identifier is its pattern in a `lua_Integer`.
pub record Reply : Type 0 where
  pub err_stat : ℤ
  pub inst_id : List ℕ
  pub value : Value
  pub tag : ℕ

-- What `mib_instance_search` hands back: the changed fields of `ret_oid`.
pub record Instance : Type 0 where
  pub err_stat : ℤ
  pub inst_id : List ℕ
  pub var : Variable

-- The value to set, which is nil for a tag without a value, and its tag; both are nil without SET.
abbrev pub Lua : Type 0
Lua = ℕ → ℕ → List ℕ → Option (Option Value × ℕ) → Option Reply

-- `MIB_TAG_VALID`: below ASN1_TAG_NO_SUCH_OBJ.
unfoldable pub mib_tag_valid : ℕ → Bool
mib_tag_valid tag = ltb tag 0x80

-- The cases of the switch over the tag of a reply; any other is an assertion that fails.
unfoldable pub has_value : ℕ → Bool
has_value tag =
    tag == 0x02
    || tag == 0x04
    || tag == 0x41
    || tag == 0x40
    || tag == 0x06
    || tag == 0x42
    || tag == 0x43

unfoldable pub req_val : ℕ → Variable → Option (Option Value × ℕ)
unfolding has_value
req_val request var =
    if request == 0xa3
    then (if has_value var.tag then some (some var.value, var.tag) else some (none, var.tag))
    else none

-- `mib_instance_search` for a callback, a request and `inst_id`; `none` is the failed assertion, or a value
-- that is written behind the union.
unfoldable pub mib_instance_search : Lua → ℕ → ℕ → Variable → List ℕ → Option Instance
unfolding mib_tag_valid has_value fits_union req_val to_int stored
mib_instance_search lua_pcall callback request var inst_id =
    elim (lua_pcall callback request inst_id (req_val request var)) [
      | none ↦ some record { err_stat = pos 0; inst_id = inst_id; var = retag 0x80 var }
      | some r ↦
          if is_zero (to_int r.err_stat) && mib_tag_valid (r.tag % 256)
          then (if not (request == 0xa3)
                && not (has_value (r.tag % 256) && fits_union (stored r.value))
              then none
              else some record {
                err_stat = to_int r.err_stat;
                inst_id = if request == 0xa1 then to_oids r.inst_id else inst_id;
                var = record {
                  tag = r.tag % 256;
                  value = if request == 0xa3 then var.value else stored r.value;
                };
              })
          else some record {
            err_stat = to_int r.err_stat;
            inst_id = inst_id;
            var = retag (r.tag % 256) var;
          }
    ]

-- What `mib_tree_search` returns: the node, and the fields of `ret_oid`.
pub record SearchRes : Type 0 where
  pub node : Option Node
  pub inst_id : List ℕ
  pub err_stat : ℤ
  pub var : Variable

unfoldable pub of_reply : Node → Option Instance → Option SearchRes
of_reply n none = none
of_reply n (some r) =
    some record { node = some n; inst_id = r.inst_id; err_stat = r.err_stat; var = r.var }

-- The loop: `oid` is what is left of the object identifier at `node`.
unfoldable pub search_down : Lua → ℕ → Variable → List ℕ → Node → Option SearchRes
unfolding slot_of mib_instance_search of_reply
search_down lua_pcall request var [] (instance_node c) =
    some
      record { node = some (instance_node c); inst_id = []; err_stat = pos 0; var = retag 0x81 var }
search_down lua_pcall request var [] (group_node room s) =
    some record {
      node = some (group_node room s);
      inst_id = [];
      err_stat = pos 0;
      var = retag 0x80 var;
    }
search_down lua_pcall request var (id ∷ oid) (instance_node c) =
    of_reply (instance_node c) (mib_instance_search lua_pcall c request var (id ∷ oid))
search_down lua_pcall request var (id ∷ oid) (group_node room s) = elim (slot_of id s) [
  | found i n ↦ search_down lua_pcall request var oid n
  | vacant i ↦ some record {
    node = some (group_node room s);
    inst_id = id ∷ oid;
    err_stat = pos 0;
    var = retag 0x80 var;
  }
  | null ↦ some record { node = none; inst_id = oid; err_stat = pos 0; var = retag 0x80 var }
]

-- Out of the view `inst_id` is not set; the model has the empty list there.
unfoldable pub mib_tree_search : Lua → ℕ → Variable → List ℕ → List ℕ → Node → Option SearchRes
unfolding search_down
mib_tree_search lua_pcall request var view orig_oid root =
    if is_pos (oid_cover view orig_oid)
    then search_down lua_pcall request var orig_oid root
    else some record { node = none; inst_id = []; err_stat = pos 0; var = retag 0x80 var }
