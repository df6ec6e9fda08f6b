-- ===== src/Tests/Clients.antt =====
-- Clients and capabilities at concrete inputs.
use hyperliquid_c.Prelude.{
  ℕ, suc, ◌+◌, ◌*◌, ◌<◌, ◌≡◌, refl, ◌⊎◌, true, false, none, some, List, [], ◌∷◌, ◌++◌, arith,
  length, get_elem?, replicate,
}
use hyperliquid_c.Prelude.Text.{CString, str, str_eq}
use hyperliquid_c.Types.{success, is_success, lv3_success, lv3_network}
use mathlib.Core.Logic.{◌⊎◌}
use hyperliquid_c.Http.{
  CurlHandle, HttpClient, Transfer, no_headers, post_handle, http_client_post, body_bytes, receive,
  all_taken, zero_response, finish_request, write_callback,
}
use hyperliquid_c.Http.Received.{joined, IsCurl, http_client_post_lem}
use hyperliquid_c.Markets.{Market, hl_get_market}
use hyperliquid_c.Markets.Parse.{fetch_swap_markets}
use hyperliquid_c.Clients.Cached.{CachedClient, hl_client_load_markets, hl_client_get_market}
use hyperliquid_c.Clients.Cached.Loaded.{hl_client_load_markets_lem}
use hyperliquid_c.Plain.{hl_free_orders}
use hyperliquid_c.Plain.Freed.{hl_free_orders_lem}
use hyperliquid_c.Tests.Instances.{reals, cjson}
use hyperliquid_c.Tests.Funding.{markets_response}
use mathlib.Core.Path.{refl}
use hyperliquid_c.Exchange.{hl_exchange_describe}
use hyperliquid_c.Exchange.Features.{hl_exchange_has, has_feature}
use hyperliquid_c.Clients.{ClientResources, hl_client_create, has_prefix}
use hyperliquid_c.Clients.Credentials.{client_of, hl_client_create_lem}

abbrev available : ClientResources
available = record { calloc = true; mutex_init = true; http_client_create = true }

-- Forty and sixty-four characters.
abbrev address : CString
address = replicate 40 97

abbrev key : CString
key = replicate 64 98

hl_client_create_lem_example :
    (hl_client_create available (some (48 ∷ 120 ∷ address)) (some key) true
      ≡ some (client_of address key true))
    × (hl_client_create available (some (48 ∷ 120 ∷ address)) (some (48 ∷ 120 ∷ key)) true
        ≡ some (client_of address key true))
unfolding has_prefix
hl_client_create_lem_example =
    hl_client_create_lem available address key true (omega arith) (omega arith) refl refl refl

has_ws : hl_exchange_has (some hl_exchange_describe) (some (str "ws")) ≡ true
unfolding hl_exchange_has has_feature str_eq
has_ws = refl

abbrev cached : CachedClient reals
cached = record {
  config = some hl_exchange_describe;
  api_key = address;
  secret = key;
  wallet_address = address;
  http_client = true;
  markets = none;
  options = record {
    testnet = true;
    timeout = 30000;
    rate_limit = 50;
    enable_cache = true;
    user_agent = [];
  };
  on_error = none;
  on_message = none;
}

abbrev btc_markets : List (Market reals)
btc_markets = (fetch_swap_markets reals cjson true (some markets_response)).1

hl_client_load_markets_lem_example :
    (loaded : CachedClient reals) × (hl_client_load_markets reals
        (success, btc_markets)
        true
        (some cached)
      ≡ (success, some loaded))
    × ((symbol : CString)
        → hl_client_get_market reals (some loaded) (some symbol)
          ≡ (hl_get_market reals btc_markets symbol).1)
    × (loaded ≡ record cached { markets = loaded.markets })
unfolding is_success
hl_client_load_markets_lem_example =
    hl_client_load_markets_lem reals (success, btc_markets) true cached

hl_free_orders_lem_example :
    (0 < 4096
      → 0 < 3
      → (others : List ℕ) × (hl_free_orders 4096 640 3 ≡ 4096 ∷ others ++ 4096 ∷ [])
        × (suc (length others) ≡ 3)
        × ((i : ℕ) (a : ℕ) → get_elem? others i ≡ some a → a ≡ 4096 + (1 + i) * 640))
    × (0 < 4096 → hl_free_orders 4096 640 0 ≡ 4096 ∷ [])
    × (hl_free_orders 0 640 3 ≡ [])
hl_free_orders_lem_example = hl_free_orders_lem 4096 640 3

-- Two chunks, and status 200.
abbrev transfer : CurlHandle → Transfer
transfer h = record { ok = true; chunks = (str "[1", true) ∷ (str "]", true) ∷ []; status = 200 }

abbrev http : HttpClient
http = record {
  curl = record {
    url = [];
    is_post = false;
    postfields = none;
    headers = no_headers;
    proxy = none;
  };
  timeout_ms = 30000;
}

transfer-IsCurl : IsCurl transfer
unfolding all_taken write_callback
transfer-IsCurl = record { stops = λ h ok. refl }

http_client_post_lem_example :
    let t = transfer (post_handle http.curl (str "/info") (some (str "{}")) none) in
    let (err, r, _) = http_client_post transfer http (str "/info") (some (str "{}")) none in
    ((err ≡ lv3_success)
      × (t.ok ≡ true)
      × (body_bytes r ≡ joined t.chunks)
      × (r.body_size ≡ length (joined t.chunks))
      × (r.status_code ≡ t.status))
    ⊎ ((err ≡ lv3_network) × (t.ok ≡ false) × (r ≡ zero_response))
http_client_post_lem_example =
    http_client_post_lem transfer http (str "/info") (some (str "{}")) none transfer-IsCurl

two_chunks : body_bytes (http_client_post transfer http (str "/info") none none).1 ≡ str "[1]"
unfolding body_bytes http_client_post finish_request receive write_callback
two_chunks = refl
