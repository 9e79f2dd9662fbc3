-- ===== src/Contracts/Json/Cloning.antt =====
-- When a deep copy of a JSON value is the value, and when it is not even JSON.
use agent_routebench.Prelude.{Bool, true, false, ◌≡◌, refl, String, arith}
use agent_routebench.Contracts.Value.{
  Value, undefined, null, callable, boolean, number, string, array, plain, instance_of, Items, nil,
  item, Fields, end, field, read,
}
use agent_routebench.Contracts.Json.{
  is_json_value, clone_json_value, clone_items, clone_fields, NoProto, NoProtoItems, NoProtoFields,
  proto_key, assign,
}

mutual
  unfolding clone_json_value

  clone-eq : (v : Value) → NoProto v → clone_json_value v ≡ v
  clone-eq (array vs) h = ground (arith, clone_items-eq vs h)
  clone-eq (plain fs) h = ground (arith, clone_fields-eq fs h)
  clone-eq undefined h = refl
  clone-eq null h = refl
  clone-eq callable h = refl
  clone-eq (boolean b) h = refl
  clone-eq (number n) h = refl
  clone-eq (string s) h = refl
  clone-eq (instance_of fs) h = refl

  clone_items-eq : (vs : Items) → NoProtoItems vs → clone_items vs ≡ vs
  clone_items-eq nil h = refl
  clone_items-eq (item v vs) h = rw (clone-eq v h.0, clone_items-eq vs h.1)

  clone_fields-eq : (fs : Fields) → NoProtoFields fs → clone_fields fs ≡ plain fs
  clone_fields-eq end h = refl
  clone_fields-eq (field k v fs) h = ground (arith, clone-eq v h.1, clone_fields-eq fs h.2)

-- A value with no own "__proto__" inside is copied exactly.
pub clone_json_value-eq : (v : Value) → NoProto v → clone_json_value v ≡ v
clone_json_value-eq v h = clone-eq v h

-- An object, with or without a usual prototype; arrays are objects too.
abbrev is_object : Value → Bool
is_object (array vs) = true
is_object (plain fs) = true
is_object (instance_of fs) = true
is_object _ = false

abbrev is_instance : Value → Bool
is_instance (instance_of fs) = true
is_instance _ = false

abbrev is_record : Value → Bool
is_record (plain fs) = true
is_record (instance_of fs) = true
is_record _ = false

assign_record :
    (k : String) (v copy : Value) → is_record copy ≡ true → is_record (assign k v copy) ≡ true
assign_record k v copy h = ground arith

clone_fields_record : (fs : Fields) → is_record (clone_fields fs) ≡ true
unfolding clone_json_value
clone_fields_record end = refl
clone_fields_record (field k v fs) = assign_record k _ _ (clone_fields_record fs)

clone_object : (v : Value) → is_object v ≡ true → is_object (clone_json_value v) ≡ true
unfolding clone_json_value
clone_object (plain fs) h = ground (arith, clone_fields_record fs)
clone_object (array vs) h = ground arith
clone_object (instance_of fs) h = refl
clone_object undefined h = cc
clone_object null h = cc
clone_object callable h = cc
clone_object (boolean b) h = cc
clone_object (number n) h = cc
clone_object (string s) h = cc

clone_fields_instance :
    (fs : Fields) → is_object (read proto_key fs) ≡ true → is_instance (clone_fields fs) ≡ true
unfolding clone_json_value
clone_fields_instance end h = cc
clone_fields_instance (field k v fs) h =
    ground (arith, clone_object v, clone_fields_record fs, clone_fields_instance fs)

-- A JSON object whose own "__proto__" holds an object or an array is copied to a value that is no
-- JSON value.
pub clone_json_value_proto :
    (fs : Fields)
    → is_json_value (plain fs) ≡ true
    → is_object (read proto_key fs) ≡ true
    → is_json_value (clone_json_value (plain fs)) ≡ false
unfolding clone_json_value is_json_value
clone_json_value_proto fs j h = ground (arith, clone_fields_instance fs)
