-- ===== src/Clients/Cached.antt =====
-- src/client_new.c: the client with a cache of the markets. The WebSocket client is never created
-- there, so its pointer stays null and is left out, as are the balances, which nothing fills.
pub mod Loaded
use hyperliquid_c.Prelude.{
  ℕ, zero, suc, ◌+◌, ◌-◌, ◌*◌, ◌/◌, ◌%◌, ◌^◌, ◌≤◌, ◌<◌, min, String, ◌≡◌, refl, sym, ap, ap₂, ◌∙◌,
  ◌≢◌, ◌↔◌, ◌⊎◌, inl, inr, Bool, true, false, not, ◌&&◌, ◌||◌, Option, none, some, List, [], ◌∷◌,
  ◌++◌, map, arith, ltb, leb, ◌==◌, if◌then◌else◌, ltb→lt, lt→ltb, leb→le, ==_iff, ==_refl,
  Bool-cases, Option-cases, Sum-cases, &&-eq-true, ◌>>=◌, ◌>>◌, guard, some-injective, >>=-eq-some,
  guard-eq-some, length, get_elem?, set, take, drop, replicate, length-append, length-set,
  length-take, length-drop, length-replicate, get_elem?-drop, get_elem?-lt, drop-head, All-append,
  All-map, All-get_elem?, take_all, take-append_le, take-append-drop, append_cancel, All,
}
use hyperliquid_c.Prelude.Text.{
  CString, str, str_eq, str_eq_refl, str_eq→eq, str_eq_iff, split_at_char, strncpy, c_str, snprintf,
}
use hyperliquid_c.Types.{HlError, success, invalid_params, is_success, Doubles}
use hyperliquid_c.Trades.{copied}
use hyperliquid_c.Markets.{Market}
use hyperliquid_c.Exchange.{ExchangeConfig, hl_exchange_describe}
use hyperliquid_c.Exchange.Features.{hl_exchange_has}

-- `hl_options_t`
pub record Options : Type 0 where
  pub testnet : Bool
  pub timeout : ℕ
  pub rate_limit : ℕ
  pub enable_cache : Bool
  pub user_agent : CString

module _ (d : Doubles) where
  -- `struct hl_client` of include/hl_client.h; a callback is the number of a function.
  pub record CachedClient : Type 0 where
    pub config : Option ExchangeConfig
    pub api_key : CString
    pub secret : CString
    pub wallet_address : CString
    pub http_client : Bool
    pub markets : Option (List (Market d))
    pub options : Options
    pub on_error : Option ℕ
    pub on_message : Option ℕ

  -- Whether there is memory for the client, and for the HTTP client.
  unfoldable pub hl_client_new :
      Bool → Bool → Option CString → Option CString → Bool → Option CachedClient
  hl_client_new calloc http none private_key testnet = none
  hl_client_new calloc http (some wallet_address) none testnet = none
  hl_client_new calloc http (some wallet_address) (some private_key) testnet =
      if not calloc
      then none
      else if not http
      then none
      else some (record {
        config = some hl_exchange_describe;
        api_key = copied 128 wallet_address;
        secret = copied 128 private_key;
        wallet_address = copied 64 wallet_address;
        http_client = true;
        markets = none;
        options = record {
          testnet = testnet;
          timeout = 30000;
          rate_limit = hl_exchange_describe.rate_limit;
          enable_cache = true;
          user_agent = str "Hyperliquid-C-SDK/1.0.0";
        };
        on_error = none;
        on_message = none;
      })

  unfoldable pub hl_client_set_error_callback : Option CachedClient → Option ℕ → Option CachedClient
  hl_client_set_error_callback none callback = none
  hl_client_set_error_callback (some c) callback = some (record c { on_error = callback })

  unfoldable pub hl_client_set_message_callback :
      Option CachedClient → Option ℕ → Option CachedClient
  hl_client_set_message_callback none callback = none
  hl_client_set_message_callback (some c) callback = some (record c { on_message = callback })

  -- A placeholder that only looks for the HTTP client.
  unfoldable pub hl_client_test_connection : Option CachedClient → Bool
  hl_client_test_connection none = false
  hl_client_test_connection (some c) = c.http_client

  -- `fetched` is what hl_fetch_markets gives, `malloc` whether there is memory for the cache. The
  -- result of a client that is null is -1, HL_ERROR_INVALID_PARAMS.
  unfoldable pub hl_client_load_markets :
      HlError × List (Market d) → Bool → Option CachedClient → HlError × Option CachedClient
  hl_client_load_markets fetched malloc none = (invalid_params, none)
  hl_client_load_markets (err, markets) malloc (some c) =
      let emptied = record c { markets = none } in
      if is_success err
      then (err, some (if malloc then record emptied { markets = some markets } else emptied))
      else (err, some emptied)

  unfoldable pub hl_client_get_markets : Option CachedClient → Option (List (Market d))
  hl_client_get_markets none = none
  hl_client_get_markets (some c) = c.markets

  -- The loop over the cache.
  unfoldable pub find_market : List (Market d) → CString → Option (Market d)
  find_market [] symbol = none
  find_market (m ∷ ms) symbol = if str_eq m.symbol symbol then some m else find_market ms symbol

  unfoldable pub hl_client_get_market : Option CachedClient → Option CString → Option (Market d)
  hl_client_get_market none symbol = none
  hl_client_get_market (some c) none = none
  hl_client_get_market (some c) (some symbol) = elim c.markets [
    | none ↦ none
    | some ms ↦ find_market ms symbol
  ]

  unfoldable pub hl_client_has_capability : Option CachedClient → Option CString → Bool
  hl_client_has_capability none capability = false
  hl_client_has_capability (some c) capability = hl_exchange_has c.config capability
