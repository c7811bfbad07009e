-- ===== src/Tests/Schema.antt =====
-- Examples over a small schema, and over the text form of configurations.
use nightshade.Shared.{[], ◌∷◌, true, false, none, some, ◌≡◌, refl, arith}
use nightshade.Shared.Text.{Text, codes, text_eq, text_compare}
use nightshade.Shared.Assoc.{lookup}
use nightshade.Shared.Result.{ok, err}
use nightshade.Schema.Path.{ConfigPath}
use nightshade.Schema.PathText.{parse, display, parse_from}
use nightshade.Schema.PathText.Fuel.{parse_from_fuel}
use nightshade.Schema.Lex.{lexer}
use nightshade.Schema.PathText.RoundTrip.{parse-display}
use nightshade.Schema.Entries.{node, values, find, insert, replace}
use nightshade.Schema.ValueSet.{has_value, add_value}
use nightshade.Schema.Config.{ConfigTree, get, set, new}
use nightshade.Schema.Value.{ValueSpec, ValueType, any_text, number, pos, interface_name}
use nightshade.Schema.Model.{
  Schema, SchemaNode, schema_node, childless, with_child, NodeKind, container, tag, leaf,
  multi_leaf, flag, Traits,
}
use nightshade.Schema.Curly.Parse
use nightshade.Schema.Curly.Ends.{body_fuel}
use nightshade.Schema.Value.Names.{prefix_len, port_of}
use nightshade.Schema.Value.Rules.{prefix_len_unique}
use nightshade.Shared.Pieces.{digits_from}
use nightshade.Schema.Curly.Render.{render, nested}
use nightshade.Schema.Validate.{Platform}
use nightshade.Schema.Validate.Setting.{apply_set, apply_delete, validate_set}
use nightshade.Schema.Validate.Types.{validate_tree}
use nightshade.Schema.Validate.Valid.{validate_tree-apply_set}
use nightshade.Schema.Validate.Deletes.{validate_tree-apply_delete}
use nightshade.Schema.Validate.Found.{validate_set-validate_tree}
use nightshade.Configd.Commit.{SchemaOps}
use nightshade.Configd.Model.{Configd, Request}
use nightshade.Configd.Steps.{last_config}
use nightshade.Configd.Commit.Logging.{Log}
use nightshade.Configd.System.{handle, here, next, handled}
use nightshade.Configd.System.Valid.{AllValid}
use nightshade.Configd.Schemas.{ops_of}
use nightshade.Configd.Schemas.Keeping.{Reach-AllValid}
use nightshade.Tests.{named, host_path, idle, env, alice, sid}
use nightshade.Tests.Daemon.{rs}

abbrev platform : Platform
platform = record {
  zones = record { available = false; known = λ _. false };
  debug = λ t. t;
  debug_char = λ c. c ∷ [];
}

abbrev spec_of : ValueType → ValueSpec
spec_of ty = record { ty = ty; accepts = []; pattern = none }

abbrev plain : Traits
plain = record {
  help = [];
  default = none;
  secret = false;
  required = false;
  priority = 500;
  constraints = [];
  unique = [];
  exclusive = [];
}

abbrev of_kind : NodeKind → SchemaNode
of_kind kind = schema_node kind plain childless

abbrev mtu : ValueType
mtu = number (record { min = pos 68; max = pos 9000; step = none })

-- A host name, some servers, a flag, and interfaces with an MTU.
abbrev small : Schema
small = record {
  root = schema_node container plain (
      with_child (codes "host") (of_kind (leaf (spec_of any_text))) (
        with_child (codes "off") (of_kind flag) (
          with_child (codes "port")
            (schema_node (tag (record { value = spec_of interface_name; help = [] })) plain
              (with_child (codes "mtu") (of_kind (leaf (spec_of mtu))) childless))
            (with_child (codes "server") (of_kind (multi_leaf (spec_of any_text))) childless))));
  globals = [];
}

abbrev mtu_path : ConfigPath
mtu_path = codes "port" ∷ codes "eth0" ∷ codes "mtu" ∷ []

abbrev r1 : ConfigTree
r1 = named (codes "r1")

r1_is_valid : validate_tree platform small r1 ≡ []
unfolding validate_tree text_eq
r1_is_valid = refl

validate_tree-apply_set_example :
    validate_tree platform small
      (apply_set platform.zones small r1 mtu_path (some (codes "1500"))).0
    ≡ []
validate_tree-apply_set_example =
    validate_tree-apply_set platform small r1 mtu_path r1_is_valid (some (codes "1500"))

set_accepted : (apply_set platform.zones small r1 mtu_path (some (codes "1500"))).1 ≡ ok tt
unfolding apply_set text_eq set find
set_accepted = refl

validate_tree-apply_delete_example :
    validate_tree platform small (apply_delete small r1 host_path (some (codes "r1"))).0 ≡ []
validate_tree-apply_delete_example =
    validate_tree-apply_delete platform small r1 host_path refl r1_is_valid (some (codes "r1"))

r1_host : get r1 host_path ≡ some (node none (values (codes "r1" ∷ [])))
unfolding get find text_eq
r1_host = refl

validate_set-validate_tree_example :
    ((v : Text)
      → has_value v (codes "r1" ∷ []) ≡ true
      → validate_set platform.zones small host_path (some v) ≡ ok tt)
    × (codes "r1" ∷ [] ≡ [] → validate_set platform.zones small host_path none ≡ ok tt)
validate_set-validate_tree_example =
    validate_set-validate_tree platform small r1 host_path none (codes "r1" ∷ []) r1_is_valid
      r1_host

parse-display_example :
    parse (display (codes "a b" ∷ codes "c" ∷ [])) ≡ ok (codes "a b" ∷ codes "c" ∷ [])
parse-display_example = parse-display (codes "a b" ∷ codes "c" ∷ [])

parse_from_fuel_example :
    parse_from 4 (lexer (codes "a b") Parse.start) ≡ parse_from 9 (lexer (codes "a b") Parse.start)
parse_from_fuel_example =
    parse_from_fuel 4 9 (lexer (codes "a b") Parse.start) (omega arith) (omega arith)

abbrev ops : SchemaOps
ops = ops_of platform small

r2_is_valid : validate_tree platform small (named (codes "r2")) ≡ []
unfolding validate_tree text_eq
r2_is_valid = refl

empty_is_valid : validate_tree platform small new ≡ []
unfolding validate_tree
empty_is_valid = refl

idle-AllValid : AllValid ops idle.state
unfolding ops_of lookup last_config
idle-AllValid = record {
  runs = r1_is_valid;
  candidates = λ id x e. ground (arith, e, r2_is_valid);
  window = λ p e. ground (arith, e);
  past = empty_is_valid;
}

abbrev after_set : Configd Log
after_set = (handle ops rs env (Request.set sid mtu_path (some (codes "1500"))) alice idle).0

Reach-AllValid_example : AllValid ops after_set.state
Reach-AllValid_example =
    Reach-AllValid platform small refl rs idle after_set
      (next here (handled env (Request.set sid mtu_path (some (codes "1500"))) alice refl))
      idle-AllValid

abbrev document : Text
document =
    codes
      "# top\nsystem {\n    host-name \"r 1\"\n    disable # now\n    server b\n    server a\n}\n"

abbrev read : ConfigTree
read = elim (Parse.parse document) [ ok t ↦ t | err _ ↦ named [] ]

read_back : Parse.parse (render nested read) ≡ ok read
unfolding Parse.parse render find insert text_eq replace text_compare add_value
read_back = refl

abbrev unread : Parse.Parser
unread = record { lexer = lexer (codes "a { b }") Parse.start; peeked = none }

body_fuel_example : Parse.body 8 new [] 0 none unread ≡ Parse.body 20 new [] 0 none unread
body_fuel_example = body_fuel 8 20 new [] 0 none unread (omega arith) (omega arith)

prefix_len_24 : prefix_len (codes "24") ≡ some 24
unfolding prefix_len digits_from
prefix_len_24 = refl

prefix_len_unique_example : codes "24" ≡ codes "24"
prefix_len_unique_example =
    prefix_len_unique (codes "24") (codes "24") 24 prefix_len_24 prefix_len_24

prefix_len_024 : prefix_len (codes "024") ≡ none
unfolding prefix_len
prefix_len_024 = refl

-- A sign makes a second spelling of a port.
port_of_plus : port_of (codes "+80") ≡ port_of (codes "80")
unfolding port_of digits_from
port_of_plus = refl
