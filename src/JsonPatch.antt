-- ===== src/JsonPatch.antt =====
-- crates/maple_lsp/src/json_patch.rs: `merge` on JSON values. `Value` is that of serde_json; a number is
-- the text of its digits, an object the list of its fields.
pub mod Lookup
use vim_clap.Common.{Bool, true, false, Option, none, some, if◌then◌else◌}
use vim_clap.Text.{Text, text_eq}

mutual
  pub data Value : Type 0 where
    null : Value
    bool : Bool → Value
    number string : Text → Value
    array : Values → Value
    object : Fields → Value

  pub data Values : Type 0 where
    no_values : Values
    value : Value → Values → Values

  pub data Fields : Type 0 where
    no_fields : Fields
    field : Text → Value → Fields → Fields

abbrev pub is_null : Value → Bool
is_null null = true
is_null (bool b) = false
is_null (number n) = false
is_null (string s) = false
is_null (array vs) = false
is_null (object fs) = false

-- `a.get(k)`
unfoldable pub get_field : Text → Fields → Option Value
get_field k no_fields = none
get_field k (field k' v fs) = let rest = get_field k fs in if text_eq k k' then some v else rest

-- `a.remove(&k)`
unfoldable pub remove_field : Text → Fields → Fields
remove_field k no_fields = no_fields
remove_field k (field k' v fs) =
    let rest = remove_field k fs in if text_eq k k' then rest else field k' v rest

-- Writing through `a.entry(k).or_insert(Value::Null)`.
unfoldable pub write_field : Text → Value → Fields → Fields
write_field k v no_fields = field k v no_fields
write_field k v (field k' v' fs) =
    let rest = field k' v' (write_field k v fs) in if text_eq k k' then field k' v fs else rest

abbrev pub value_or_null : Option Value → Value
value_or_null none = null
value_or_null (some v) = v

-- What the entry of a key holds before the write.
unfoldable pub entry_value : Text → Fields → Value
unfolding get_field
entry_value k fs = value_or_null (get_field k fs)

unfoldable mutual
  unfolding remove_field write_field entry_value

  pub merge : Value → Value → Value
  merge (object a) (object b) = object (merge_fields a b)
  merge (object a) null = null
  merge (object a) (bool b) = bool b
  merge (object a) (number n) = number n
  merge (object a) (string s) = string s
  merge (object a) (array vs) = array vs
  merge null b = b
  merge (bool a) b = b
  merge (number a) b = b
  merge (string a) b = b
  merge (array a) b = b

  -- The loop over the fields of `b`.
  pub merge_fields : Fields → Fields → Fields
  merge_fields a no_fields = a
  merge_fields a (field k v b) =
      let removed = merge_fields (remove_field k a) b in
      let merged = merge_fields (write_field k (merge (entry_value k a) v) a) b in
      if is_null v then removed else merged
