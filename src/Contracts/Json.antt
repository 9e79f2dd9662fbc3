-- ===== src/Contracts/Json.antt =====
-- isJsonValue of packages/agent-contracts/src/contracts.ts, and cloneJsonValue of
-- packages/agent-runtime/src/agent-loop.ts.
pub mod Cloning
use agent_routebench.Prelude.{
  Bool, true, false, ◌&&◌, ◌≡◌, refl, String, Option, none, some, ◌==◌, if◌then◌else◌,
}
use agent_routebench.Contracts.Value.{
  Number, natural, negative, fraction, infinity, nan, Value, undefined, null, callable, boolean,
  number, string, array, plain, instance_of, Items, nil, item, Fields, end, field,
}

abbrev pub is_finite : Number → Bool
is_finite (infinity s) = false
is_finite nan = false
is_finite _ = true

abbrev pub is_json_primitive : Value → Bool
is_json_primitive null = true
is_json_primitive (string s) = true
is_json_primitive (boolean b) = true
is_json_primitive (number n) = is_finite n
is_json_primitive _ = false

unfoldable mutual
  pub is_json_value : Value → Bool
  is_json_value (array vs) = is_json_items vs
  is_json_value (plain fs) = is_json_fields fs
  is_json_value undefined = false
  is_json_value null = true
  is_json_value callable = false
  is_json_value (boolean b) = is_json_primitive (boolean b)
  is_json_value (number n) = is_json_primitive (number n)
  is_json_value (string s) = is_json_primitive (string s)
  is_json_value (instance_of fs) = false

  pub is_json_items : Items → Bool
  is_json_items nil = true
  is_json_items (item v vs) = is_json_value v && is_json_items vs

  pub is_json_fields : Fields → Bool
  is_json_fields end = true
  is_json_fields (field k v fs) = is_json_value v && is_json_fields fs

-- The own property "__proto__", which no assignment can make: `copy["__proto__"] = v` calls the
-- setter of `Object.prototype`.
abbrev pub proto_key : String
proto_key = "__proto__"

abbrev append_fields : Fields → Fields → Fields
append_fields end gs = gs
append_fields (field k v fs) gs = field k v (append_fields fs gs)

-- What the setter does with a value: an object becomes the prototype, so that the copy is plain no
-- more; null leaves it plain; another value is ignored.
abbrev set_proto : Value → Value → Value
set_proto (plain gs) (plain fs) = instance_of (append_fields fs gs)
set_proto (plain gs) (instance_of fs) = instance_of (append_fields fs gs)
set_proto (instance_of gs) (plain fs) = instance_of (append_fields fs gs)
set_proto (instance_of gs) (instance_of fs) = instance_of (append_fields fs gs)
set_proto (array vs) (plain fs) = instance_of fs
set_proto (array vs) (instance_of fs) = instance_of fs
set_proto _ copy = copy

abbrev define : String → Value → Value → Value
define k v (plain fs) = plain (field k v fs)
define k v (instance_of fs) = instance_of (field k v fs)
define k v copy = copy

-- `copy[k] = v` on the copy under construction. The keys of one object differ, so that the order of
-- the assignments does not change what a key holds.
abbrev pub assign : String → Value → Value → Value
assign k v copy = if k == proto_key then set_proto v copy else define k v copy

unfoldable mutual
  unfolding is_json_value

  pub clone_json_value : Value → Value
  clone_json_value (array vs) =
      if is_json_value (array vs) then array (clone_items vs) else array vs
  clone_json_value (plain fs) = if is_json_value (plain fs) then clone_fields fs else plain fs
  clone_json_value undefined = undefined
  clone_json_value null = null
  clone_json_value callable = callable
  clone_json_value (boolean b) = boolean b
  clone_json_value (number n) = number n
  clone_json_value (string s) = string s
  clone_json_value (instance_of fs) = instance_of fs

  clone_items : Items → Items
  clone_items nil = nil
  clone_items (item v vs) = item (clone_json_value v) (clone_items vs)

  -- The loop over `Object.entries`.
  clone_fields : Fields → Value
  clone_fields end = plain end
  clone_fields (field k v fs) = assign k (clone_json_value v) (clone_fields fs)

-- No object inside the value has the own property "__proto__".
abbrev mutual
  pub NoProto : Value → Type 0
  NoProto (array vs) = NoProtoItems vs
  NoProto (plain fs) = NoProtoFields fs
  NoProto undefined = Unit
  NoProto null = Unit
  NoProto callable = Unit
  NoProto (boolean b) = Unit
  NoProto (number n) = Unit
  NoProto (string s) = Unit
  NoProto (instance_of fs) = Unit

  pub NoProtoItems : Items → Type 0
  NoProtoItems nil = Unit
  NoProtoItems (item v vs) = NoProto v × NoProtoItems vs

  pub NoProtoFields : Fields → Type 0
  NoProtoFields end = Unit
  NoProtoFields (field k v fs) = ((k == proto_key) ≡ false) × NoProto v × NoProtoFields fs
