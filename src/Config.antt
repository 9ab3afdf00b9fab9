-- ===== src/Config.antt =====
-- The configuration of the load balancer (`lb_config`), as the YAML reader gives it: scalars have
-- Python's dynamic types, an address is text, and a key that is missing is `none`.
use polaris_gslb.Prelude.{
  ℕ, String, Bool, true, false, Option, none, some, List, count, leb, if◌then◌else◌,
}
use polaris_gslb.Prelude.Int.{ℤ, pos, within, thousandfold}
use polaris_gslb.Prelude.Dict.{Dict}

-- A float is the number of its thousandths.
pub data Scalar : Type 0 where
  null : Scalar
  bool : Bool → Scalar
  int float : ℤ → Scalar
  str : String → Scalar

pub data Value : Type 0 where
  scalar : Scalar → Value
  list : List Scalar → Value

-- obj['pools'][name]['members'][i]
pub record MemberConfig : Type 0 where
  pub ip : Option String
  pub name : Option Value
  pub weight : Option Value
  pub monitor_ip : Option (Option String)

-- obj['pools'][name]
pub record PoolConfig : Type 0 where
  pub monitor : Option Value
  pub monitor_params : Option (Dict String Value)
  pub lb_method : Option Value
  pub members : Option (List MemberConfig)
  pub fallback : Option Value
  pub max_addrs_returned : Option Value

-- obj['globalnames'][name]
pub record NameConfig : Type 0 where
  pub pool : Option Value
  pub ttl : Option Value

pub record LbConfig : Type 0 where
  pub pools : Option (Dict String PoolConfig)
  pub globalnames : Option (Dict String NameConfig)

-- isinstance(value, int), which a bool is too, and the number
abbrev pub as_int : Value → Option ℤ
as_int (scalar (bool true)) = some (pos 1)
as_int (scalar (bool false)) = some (pos 0)
as_int (scalar (int n)) = some n
as_int _ = none

-- isinstance(value, (int, float)), and the number in thousandths
abbrev pub as_millis : Value → Option ℤ
as_millis (scalar (bool true)) = some (pos 1000)
as_millis (scalar (bool false)) = some (pos 0)
as_millis (scalar (int n)) = some (thousandfold n)
as_millis (scalar (float n)) = some n
as_millis _ = none

abbrev pub as_bool : Value → Option Bool
as_bool (scalar (bool b)) = some b
as_bool _ = none

abbrev pub as_str : Value → Option String
as_str (scalar (str s)) = some s
as_str _ = none

abbrev pub is_null : Value → Bool
is_null (scalar null) = true
is_null _ = false

abbrev pub within_option : ℕ → ℕ → Option ℤ → Option ℕ
within_option low high none = none
within_option low high (some n) = within low high n

-- An int, or a number in thousandths, between two bounds.
abbrev pub int_within : ℕ → ℕ → Value → Option ℕ
int_within low high v = within_option low high (as_int v)

abbrev pub millis_within : ℕ → ℕ → Value → Option ℕ
millis_within low high v = within_option low high (as_millis v)

abbrev pub at_most : ℕ → Option String → Option String
at_most n none = none
at_most n (some s) = if leb (count s) n then some s else none

-- A str of at most `n` characters.
abbrev pub str_at_most : ℕ → Value → Option String
str_at_most n v = at_most n (as_str v)
