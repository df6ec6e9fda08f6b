-- ===== src/Tests/Funding.antt =====
-- Funding rates, open interests and tickers at concrete inputs.
use hyperliquid_c.Prelude.{
  ℕ, ◌+◌, ◌*◌, ◌^◌, ◌≤◌, ◌<◌, ◌≡◌, refl, ◌≢◌, ◌⊎◌, true, none, some, [], ◌∷◌, map, arith, get_elem?,
}
use hyperliquid_c.Prelude.Text.{CString, str, str_eq}
use hyperliquid_c.Types.{success, not_found, is_lv3_success, lv3_success, HttpResult}
use mathlib.Core.Path.{refl}
use mathlib.Core.Logic.{◌⊎◌}
use hyperliquid_c.Trades.{TradesApi}
use hyperliquid_c.Orders.Parse.{reply_json}
use hyperliquid_c.Contexts.{reply_contexts, context_parts, pair_name, context_loop, usdc_symbol}
use hyperliquid_c.Funding.{funding_rate_of, make_rate, hl_fetch_funding_rates}
use hyperliquid_c.Funding.History.{history_start}
use hyperliquid_c.Funding.History.Start.{hours, history_start_lem}
use hyperliquid_c.Markets.Parse.{name_of}
use hyperliquid_c.Markets.Interests.{hl_fetch_open_interest}
use hyperliquid_c.Markets.Interests.Single.{IsInterest, hl_fetch_open_interest_lem}
use hyperliquid_c.Tests.Instances.{reals, cjson, node_items, node_field, node_text}

abbrev funding_api : TradesApi
funding_api = record {
  wallet_address = some (str "0x00");
  calloc = true;
  post = λ url body. (lv3_success, some (200, some (str "[]")));
}

abbrev pub markets_response : HttpResult
markets_response = record { err = lv3_success; status_code = 200; body = some (str "[]") }

abbrev eth_market : CString
eth_market = str "ETH/USDC:USDC"

two_rates :
    (elim (hl_fetch_funding_rates reals cjson funding_api 1700000000).1 [
      | none ↦ []
      | some rates ↦ map (λ r. r.symbol) rates
    ])
    ≡ str "BTC/USDC:USDC" ∷ eth_market ∷ []
unfolding hl_fetch_funding_rates reply_contexts reply_json context_parts context_loop make_rate
    pair_name name_of usdc_symbol is_lv3_success node_items node_field node_text str_eq
    funding_rate_of
two_rates = refl

history_start_lem_example :
    (24 ≤ 1193 → history_start 24 1700000000 + hours 24 * 60 * 60 * 1000 ≡ 1700000000 * 1000)
    × (1700000000 * 1000 < history_start 24 1700000000 + 2 ^ 32)
history_start_lem_example = history_start_lem 24 1700000000 (omega arith) (omega arith)

hl_fetch_open_interest_lem_example :
    (((hl_fetch_open_interest reals cjson funding_api 1700000000 eth_market).0 ≡ success)
      × IsInterest reals cjson 1700000000 eth_market
          (4 ∷ 5 ∷ [])
          (8 ∷ 8 ∷ [])
          (hl_fetch_open_interest reals cjson funding_api 1700000000 eth_market).1)
    ⊎ (((hl_fetch_open_interest reals cjson funding_api 1700000000 eth_market).0 ≡ not_found)
        × ((i u c : ℕ) (name : CString)
            → get_elem? (4 ∷ 5 ∷ []) i ≡ some u
            → get_elem? (8 ∷ 8 ∷ []) i ≡ some c
            → pair_name reals cjson u c ≡ some name
            → eth_market ≢ usdc_symbol 64 name))
unfolding reply_contexts reply_json context_parts is_lv3_success node_items node_field str_eq
hl_fetch_open_interest_lem_example =
    hl_fetch_open_interest_lem reals cjson funding_api 1700000000 eth_market (4 ∷ 5 ∷ [])
      (8 ∷ 8 ∷ []) refl refl

abbrev no_date : ℕ → CString
no_date seconds = []
