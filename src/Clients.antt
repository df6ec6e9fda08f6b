-- ===== src/Clients.antt =====
-- src/client.c: the checks and the struct of a client. The accessors that only read a field, the
-- mutex, and hl_set_debug, which does nothing, are left out.
pub mod Credentials
pub mod Cached
use hyperliquid_c.Prelude.{
  ℕ, zero, suc, ◌+◌, ◌-◌, ◌*◌, ◌/◌, ◌%◌, ◌^◌, ◌≤◌, ◌<◌, min, String, ◌≡◌, refl, sym, ap, ap₂, ◌∙◌,
  ◌≢◌, ◌↔◌, ◌⊎◌, inl, inr, Bool, true, false, not, ◌&&◌, ◌||◌, Option, none, some, List, [], ◌∷◌,
  ◌++◌, map, arith, ltb, leb, ◌==◌, if◌then◌else◌, ltb→lt, lt→ltb, leb→le, ==_iff, ==_refl,
  Bool-cases, Option-cases, Sum-cases, &&-eq-true, ◌>>=◌, ◌>>◌, guard, some-injective, >>=-eq-some,
  guard-eq-some, length, get_elem?, set, take, drop, replicate, length-append, length-set,
  length-take, length-drop, length-replicate, get_elem?-drop, get_elem?-lt, drop-head, All-append,
  All-map, All-get_elem?, take_all, take-append_le, take-append-drop, append_cancel, All,
}
use hyperliquid_c.Prelude.Text.{
  CString, str, str_eq, str_eq_refl, str_eq→eq, str_eq_iff, split_at_char, strncpy, c_str, snprintf,
}
use hyperliquid_c.Types.{HttpResult, is_lv3_success}
use hyperliquid_c.Trades.{copied}
use hyperliquid_c.Markets.Lookup.{info_url}

-- `struct hl_client` of src/client.c, with whether it has its HTTP client.
pub record ApiClient : Type 0 where
  pub wallet_address : CString
  pub private_key : CString
  pub testnet : Bool
  pub http : Bool
  pub timeout_ms : ℕ
  pub debug : Bool

-- What the rest of the system gives: memory, the mutex and the HTTP client.
pub record ClientResources : Type 0 where
  pub calloc : Bool
  pub mutex_init : Bool
  pub http_client_create : Bool

unfoldable pub has_prefix : CString → Bool
has_prefix (a ∷ b ∷ rest) = a == 48 && b == 120
has_prefix _ = false

-- The text behind "0x".
unfoldable pub without_prefix : CString → CString
without_prefix s = if has_prefix s then drop 2 s else s

-- The checks of the two texts.
unfoldable pub is_valid_wallet : CString → Bool
is_valid_wallet wallet_address = not (ltb (length wallet_address) 42) && has_prefix wallet_address

unfoldable pub is_valid_key : CString → Bool
is_valid_key private_key = length private_key == 64 || length private_key == 66

unfoldable pub hl_client_create :
    ClientResources → Option CString → Option CString → Bool → Option ApiClient
hl_client_create r none private_key testnet = none
hl_client_create r (some wallet_address) none testnet = none
hl_client_create r (some wallet_address) (some private_key) testnet =
    if not (is_valid_wallet wallet_address)
    then none
    else if not (is_valid_key private_key)
    then none
    else if not r.calloc
    then none
    else if not r.mutex_init
    then none
    else if not r.http_client_create
    then none
    else some (record {
      wallet_address = copied 43 (without_prefix wallet_address);
      private_key = copied 65 (without_prefix private_key);
      testnet = testnet;
      http = true;
      timeout_ms = 30000;
      debug = false;
    })

-- What the memory of the key holds when the client is freed.
unfoldable pub hl_client_destroy : ApiClient → ApiClient
hl_client_destroy c = record c { private_key = []; http = false }

unfoldable pub hl_test_connection : (CString → CString → HttpResult) → Option ApiClient → Bool
hl_test_connection post none = false
hl_test_connection post (some c) =
    let r = post (info_url c.testnet) (str "{\"type\":\"meta\"}") in
    is_lv3_success r.err && r.status_code == 200

unfoldable pub hl_set_timeout : Option ApiClient → ℕ → Option ApiClient
hl_set_timeout none timeout_ms = none
hl_set_timeout (some c) timeout_ms = some (record c { timeout_ms = timeout_ms })
