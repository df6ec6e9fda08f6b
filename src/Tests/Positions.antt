-- ===== src/Tests/Positions.antt =====
-- Leverage and margin (src/leverage.c, src/margin.c) at concrete inputs.
use mathlib.Core.Path.{refl, Path}
use mathlib.Core.Logic.{inl, inr}
use hyperliquid_c.Prelude.{
  ◌⊎◌, ◌++◌, Option, ℕ, ◌+◌, ◌≤◌, ◌≡◌, refl, ◌≢◌, inl, inr, false, none, some, [], arith,
}
use hyperliquid_c.Prelude.Text.{CString, str, str_eq, split_at_char, snprintf}
use hyperliquid_c.Types.{HlError, network, invalid_params, ℤ, pos, decimal, decimal_loop}
use hyperliquid_c.Positions.{
  hl_add_margin, hl_set_leverage, margin_answer, leverage_answer, leverage_asset, with_signature,
  Exchange, both_keys, coin_buffer, margin_asset, leverage_target, signed_body, leverage_action,
  prepare_margin, prepare_leverage, hl_reduce_margin, exchange_request,
}
use hyperliquid_c.Positions.Signed.{request_text, HasKeys}
use hyperliquid_c.Positions.Margin
use hyperliquid_c.Positions.Leverage
use hyperliquid_c.Positions.Margin.{margin_text, hl_reduce_margin-refused, prepare_margin-signed}
use hyperliquid_c.Positions.Leverage.{leverage_text, IsTarget, prepare_leverage-signed}
use hyperliquid_c.Positions.Braces.{count, signed_body-count}
use hyperliquid_c.Tests.Instances.{reals, reals-IsNegated, less}

-- A client whose markets cannot be fetched.
abbrev exchange : Exchange reals
exchange = record {
  wallet = some (str "0x01");
  key = some (str "0x02");
  markets = (network, []);
  now = 9;
  sign = λ request key. some (str "0xab");
  post = λ body. none;
}

hl_reduce_margin-refused_example :
    hl_reduce_margin reals exchange (str "ETH") (pos 7) ≡ invalid_params
unfolding less
hl_reduce_margin-refused_example =
    hl_reduce_margin-refused reals reals-IsNegated exchange (str "ETH") (pos 7) (inr refl)

prepare_margin-signed_example :
    ((code : HlError) × (prepare_margin reals exchange (str "ETH/USDC:USDC") (pos 7) ≡ inl code)
      × Margin.IsRefused reals exchange
          (margin_asset reals exchange (coin_buffer (str "ETH/USDC:USDC")))
          (pos 7)
          code)
    ⊎ ((key : CString) × (sig : CString) × (reals.less_equal (pos 7) (pos 0) ≡ false)
        × HasKeys reals exchange key
        × (margin_asset reals exchange (coin_buffer (str "ETH/USDC:USDC")) ≢ 0)
        × (exchange.sign
              (request_text 1024 9 (
                margin_text reals
                  (margin_asset reals exchange (coin_buffer (str "ETH/USDC:USDC")))
                  (pos 7)))
              key
            ≡ some sig)
        × ((text : CString) × (prepare_margin reals exchange (str "ETH/USDC:USDC") (pos 7)
              ≡ inr text)
            × (hl_add_margin reals exchange (str "ETH/USDC:USDC") (pos 7)
                ≡ margin_answer reals (exchange.post text))
            × (text
                ≡ snprintf 2048 (
                    request_text 1024 9 (
                      margin_text reals
                        (margin_asset reals exchange (coin_buffer (str "ETH/USDC:USDC")))
                        (pos 7))
                    ++ str ",\"signature\":\""
                    ++ sig
                    ++ str "\"}"))))
prepare_margin-signed_example = prepare_margin-signed reals exchange (str "ETH/USDC:USDC") (pos 7)

prepare_leverage-signed_example :
    (target : Option ℕ) × IsTarget reals exchange (some (str "BTC")) target
    × (((code : HlError) × (prepare_leverage reals exchange (pos 20) (some (str "BTC")) ≡ inl code)
          × Leverage.IsRefused reals exchange (pos 20) target code)
        ⊎ ((n : ℕ) × (key : CString) × (sig : CString) × (Path ℤ (pos 20) (pos n))
            × (1 ≤ n)
            × (n ≤ 50)
            × HasKeys reals exchange key
            × (exchange.sign (request_text 1536 9 (leverage_text reals n target)) key ≡ some sig)
            × ((text : CString) × (prepare_leverage reals exchange (pos 20) (some (str "BTC"))
                  ≡ inr text)
                × (hl_set_leverage reals exchange (pos 20) (some (str "BTC"))
                    ≡ leverage_answer reals (exchange.post text))
                × (text
                    ≡ snprintf 2048 (
                        request_text 1536 9 (leverage_text reals n target)
                        ++ str ",\"signature\":\""
                        ++ sig
                        ++ str "\"}")))))
prepare_leverage-signed_example = prepare_leverage-signed reals exchange (pos 20) (some (str "BTC"))

-- What is posted for the leverage 20 of BTC.
leverage_posted :
    prepare_leverage reals exchange (pos 20) (some (str "BTC"))
    ≡ inr (
        str
          "{\"action\":{\"type\":\"batchModify\",\"modifies\":[{\"type\":\"updateLeverage\",\"leverage\":20,\"asset\":1}]},\"nonce\":9},\"signature\":\"0xab\"}")
unfolding prepare_leverage both_keys signed_body exchange_request with_signature leverage_action
    leverage_target leverage_asset coin_buffer split_at_char str_eq decimal decimal_loop
leverage_posted = refl

signed_body-count_example :
    (text : CString) × (signed_body reals 1536 exchange (str "0x02") (leverage_action reals 20 none)
      ≡ some text)
    × (count 125 text ≡ count 123 text + 1)
unfolding exchange_request leverage_action decimal decimal_loop
signed_body-count_example =
    signed_body-count reals 1536 exchange (str "0x02") (leverage_action reals 20 none) (str "0xab")
      (omega arith) refl refl refl
