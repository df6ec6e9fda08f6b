-- ===== src/Types.antt =====
-- include/hl_error.h, include/hl_http.h and what the C library gives the other files: `double` as an
-- interface, whose numbers are not looked into, and the decimal text of an integer.
use hyperliquid_c.Prelude.{
  ◌==◌, none, some, List, Option, ℕ, zero, suc, ◌+◌, ◌/◌, ◌%◌, ◌≡◌, Bool, true, false, [], ◌∷◌,
  ◌++◌, ltb, if◌then◌else◌,
}
use hyperliquid_c.Prelude.Text.{CString}

-- `hl_error_t`
pub data HlError : Type 0 where
  success : HlError
  invalid_params : HlError
  network : HlError
  api : HlError
  auth : HlError
  insufficient_balance : HlError
  invalid_symbol : HlError
  order_rejected : HlError
  signature : HlError
  msgpack : HlError
  json : HlError
  memory : HlError
  timeout : HlError
  not_implemented : HlError
  not_found : HlError
  parse : HlError

unfoldable pub is_success : HlError → Bool
is_success success = true
is_success _ = false

-- `double`: the operations of C on it, and the functions of the C library that read and print it.
pub record Doubles : Type 1 where
  pub Real : Type 0
  pub zero_real : Real
  -- The conversion of an unsigned integer, which rounds.
  pub of_nat : ℕ → Real
  pub negate : Real → Real
  pub fabs : Real → Real
  pub add : Real → Real → Real
  pub sub : Real → Real → Real
  pub mul : Real → Real → Real
  pub divide : Real → Real → Real
  pub less : Real → Real → Bool
  pub less_equal : Real → Real → Bool
  pub atof : CString → Real
  -- The texts of `%.nf` and of `%.ng`; `%g` is `%.6g`.
  pub fixed : ℕ → Real → CString
  pub general : ℕ → Real → CString
  -- The bits of an `int` or `uint32_t`.
  pub atoi : CString → ℕ
  -- The bits of a `long long`.
  pub atoll : CString → ℕ
  pub strtoull : CString → ℕ
  -- The text that printf("%d") gives of what sscanf("%d") reads.
  pub scan_int : CString → Option CString
  pub to_u32 : Real → ℕ
  pub to_int : Real → ℕ
  pub to_u64 : Real → ℕ

-- cJSON, by the calls that the source makes. `cJSON_GetArraySize` and `cJSON_GetArrayItem` are the
-- length and the elements of `items`; `valueint` is the bits of an `int`.
pub record CJson (d : Doubles) : Type 1 where
  pub Node : Type 0
  pub parse_text : CString → Option Node
  pub get_object_item : Node → CString → Option Node
  pub is_string : Node → Bool
  pub is_number : Node → Bool
  pub is_array : Node → Bool
  pub is_object : Node → Bool
  pub valuestring : Node → Option CString
  pub valuedouble : Node → d.Real
  pub get_number_value : Node → d.Real
  pub valueint : Node → ℕ
  pub items : Node → List Node
  pub print_unformatted : Node → Option CString

-- What the comparison of IEEE 754 numbers satisfies, the ones that are no numbers included.
pub record IsOrdered (d : Doubles) : Type 0 where
  pub less_irreflexive : (x : d.Real) → d.less x x ≡ false
  pub less_transitive : (x y z : d.Real) → d.less x y ≡ true → d.less y z ≡ true → d.less x z ≡ true

-- What changing the sign of a positive IEEE 754 number gives.
pub record IsNegated (d : Doubles) : Type 0 where
  pub negate_positive :
      (x : d.Real) → d.less d.zero_real x ≡ true → d.less_equal (d.negate x) d.zero_real ≡ true

-- `int`, over the numbers that the tactics read.
pub data ℤ : Type 0 where
  pos : ℕ → ℤ
  negsuc : ℕ → ℤ

-- `lv3_error_t`
pub data Lv3Error : Type 0 where
  lv3_success : Lv3Error
  lv3_invalid_params : Lv3Error
  lv3_network : Lv3Error
  lv3_http : Lv3Error
  lv3_json : Lv3Error
  lv3_exchange : Lv3Error
  lv3_memory : Lv3Error
  lv3_timeout : Lv3Error

unfoldable pub is_lv3_success : Lv3Error → Bool
is_lv3_success lv3_success = true
is_lv3_success _ = false

-- `http_response_t` as a call of the HTTP client leaves it, and the call's result.
pub record HttpResult : Type 0 where
  pub err : Lv3Error
  pub status_code : ℕ
  pub body : Option CString

-- strstr(s, t) on a terminated text: what follows the first `t`.
unfoldable pub after_prefix : CString → CString → Option CString
after_prefix [] s = some s
after_prefix (c ∷ t) [] = none
after_prefix (c ∷ t) (b ∷ s) = if c == b then after_prefix t s else none

unfoldable pub strstr : CString → CString → Option CString
strstr [] t = after_prefix t []
strstr (b ∷ s) t =
    let rest = strstr s t in elim (after_prefix t (b ∷ s)) [ none ↦ rest | some u ↦ some u ]

-- The text of `%u`, `%d` and `%llu`, with `n` as fuel.
unfoldable pub decimal_loop : ℕ → ℕ → CString
decimal_loop zero n = (48 + n) ∷ []
decimal_loop (suc fuel) n =
    let rest = decimal_loop fuel (n / 10) in
    if ltb n 10 then (48 + n) ∷ [] else rest ++ (48 + n % 10) ∷ []

unfoldable pub decimal : ℕ → CString
decimal n = decimal_loop n n
