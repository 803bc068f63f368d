-- ===== src/Rpc.antt =====
-- crates/rpc/src/jsonrpc.rs: the parameters of a message and the session they name. `as_u64` of serde_json
-- is a parameter.
use vim_clap.Common.{ℕ, Option, none}
use vim_clap.Common.Options.{◌>>=◌}
use vim_clap.Text.{Text, codes}
use vim_clap.JsonPatch.{Value, Values, Fields, get_field, null, bool, number, string, array, object}

pub data Params : Type 0 where
  no_params : Params
  array_params : Values → Params
  map_params : Fields → Params

-- Numbers only.
abbrev pub as_u64_of : (Text → Option ℕ) → Value → Option ℕ
as_u64_of as_u64 (number n) = as_u64 n
as_u64_of as_u64 null = none
as_u64_of as_u64 (bool b) = none
as_u64_of as_u64 (string s) = none
as_u64_of as_u64 (array vs) = none
as_u64_of as_u64 (object fs) = none

unfoldable pub session_id : (Text → Option ℕ) → Params → Option ℕ
unfolding get_field
session_id as_u64 no_params = none
session_id as_u64 (array_params vs) = none
session_id as_u64 (map_params fs) = get_field (codes "session_id") fs >>= as_u64_of as_u64
