-- ===== src/Tests/Account.antt =====
-- Positions and ledger of src/account.c at concrete inputs.
use hyperliquid_c.Prelude.{
  ℕ, ◌≤◌, ◌≡◌, refl, ◌≢◌, ◌⊎◌, inl, inr, true, false, ◌&&◌, ◌||◌, Option, none, some, List, [], ◌∷◌,
  arith, leb, ◌==◌, if◌then◌else◌, Bool-cases, some-injective, length, All,
}
use hyperliquid_c.Prelude.Text.{CString, str, str_eq, split_at_char, strncpy, c_str}
use hyperliquid_c.Types.{success, not_found, is_success, is_lv3_success, CJson, lv3_success}
use mathlib.Core.Path.{refl, subst}
use mathlib.Core.Logic.{inl, inr}
use hyperliquid_c.Prelude.Buffers.{IsText}
use hyperliquid_c.Markets.{before_slash}
use hyperliquid_c.Markets.AssetIds.{coin_of}
use hyperliquid_c.Trades.{TradesApi}
use hyperliquid_c.Orders.Parse.{reply_items}
use hyperliquid_c.Account.{AccountApi, account_json, real_value, number_field}
use hyperliquid_c.Account.Positions.{
  Position, hl_fetch_positions, listed_positions, first_fetch_position, hl_fetch_position,
  parse_positions, parse_position, size_and_side, find_by_coin,
}
use hyperliquid_c.Account.Positions.Lookup.{
  HasTexts, IsFirst, IsAnswered, first_fetch_position-fails, hl_fetch_position_lem,
}
use hyperliquid_c.Account.Ledger.{ledger_request, hl_fetch_ledger}
use hyperliquid_c.Account.Ledger.Entries.{IsEntry, entries, hl_fetch_ledger-All}
use hyperliquid_c.Tests.Instances.{reals, cjson}

-- Node 0 is the answer: an array of the ledger items 10 and 11, and an object with the positions 1,
-- an array of 2 and 3, whose positions are 4 and 5. Items 10 and 11 have the deltas 12 and 13; 6, 7
-- and 9 are texts.
unfoldable account_field : ℕ → CString → Option ℕ
account_field n key =
    if n == 0 && str_eq key (str "assetPositions")
    then some 1
    else if n == 2 && str_eq key (str "position")
    then some 4
    else if n == 3 && str_eq key (str "position")
    then some 5
    else if (n == 4 || n == 12) && str_eq key (str "coin")
    then some 6
    else if (n == 5 || n == 13) && str_eq key (str "coin")
    then some 7
    else if n == 10 && str_eq key (str "delta")
    then some 12
    else if n == 11 && str_eq key (str "delta")
    then some 13
    else if n == 10 && str_eq key (str "hash")
    then some 9
    else none

unfoldable account_text : ℕ → Option CString
account_text n =
    if n == 6
    then some (str "BTC")
    else if n == 7
    then some (str "ETH")
    else if n == 9
    then some (str "0x1-2")
    else none

unfoldable account_items : ℕ → List ℕ
account_items n = if n == 0 then 10 ∷ 11 ∷ [] else if n == 1 then 2 ∷ 3 ∷ [] else []

abbrev account_cjson : CJson reals
account_cjson = record cjson {
  parse_text = λ s. some 0;
  get_object_item = account_field;
  is_string = λ n. n == 6 || n == 7 || n == 9;
  is_number = λ n. false;
  is_array = λ n. n == 0 || n == 1;
  is_object = λ n. leb 10 n;
  valuestring = account_text;
  items = account_items;
}

account_text-IsText : (n : ℕ) (s : CString) → account_text n ≡ some s → IsText s
unfolding account_text
account_text-IsText n s h = elim (Bool-cases (n == 6)) [
  | inl a ↦ subst IsText (some-injective _ _ (rw (account_text, a) at h)) (omega arith)
  | inr a ↦ elim (Bool-cases (n == 7)) [
    | inl b ↦ subst IsText (some-injective _ _ (rw (account_text, a, b) at h)) (omega arith)
    | inr b ↦ elim (Bool-cases (n == 9)) [
      | inl c ↦ subst IsText (some-injective _ _ (rw (account_text, a, b, c) at h)) (omega arith)
      | inr c ↦ cc (rw (account_text, a, b, c) at h)
    ]
  ]
]

account_cjson-HasTexts : HasTexts reals account_cjson
account_cjson-HasTexts = record { text = account_text-IsText }

abbrev account_api : AccountApi
account_api = record {
  wallet = some (str "0x00");
  http = true;
  testnet = true;
  calloc = true;
  post = λ url body. record { err = lv3_success; status_code = 200; body = some (str "{}") };
}

abbrev ledger_api : TradesApi
ledger_api = record {
  wallet_address = some (str "0x00");
  calloc = true;
  post = λ url body. (lv3_success, some (200, some (str "[]")));
}

abbrev eth : CString
eth = str "ETH"

eth_position :
    (elim (hl_fetch_position reals account_cjson account_api (str "ETH/USDC:USDC")).1 [
      | none ↦ []
      | some p ↦ p.coin
    ])
    ≡ eth
unfolding hl_fetch_position hl_fetch_positions account_json parse_positions parse_position
    size_and_side number_field real_value find_by_coin before_slash split_at_char str_eq is_success
    is_lv3_success account_field account_text account_items strncpy c_str
eth_position = refl

first_fetch_position-fails_example :
    is_success (first_fetch_position reals account_cjson account_api (str "ETH/USDC:USDC")).0
    ≡ false
first_fetch_position-fails_example =
    first_fetch_position-fails reals account_cjson account_api (str "ETH/USDC:USDC")
      account_cjson-HasTexts

hl_fetch_position_lem_example :
    ((p : Position reals) × (hl_fetch_position reals account_cjson account_api (str "ETH/USDC:USDC")
        ≡ (success, some p))
      × IsFirst reals account_cjson
          (coin_of (str "ETH/USDC:USDC"))
          (listed_positions reals account_cjson
            (hl_fetch_positions reals account_cjson account_api).1)
          p
      × IsAnswered reals account_cjson account_api p)
    ⊎ ((hl_fetch_position reals account_cjson account_api (str "ETH/USDC:USDC") ≡ (not_found, none))
        × All
            (λ q. q.coin ≢ coin_of (str "ETH/USDC:USDC"))
            (listed_positions reals account_cjson
              (hl_fetch_positions reals account_cjson account_api).1))
unfolding hl_fetch_positions account_json before_slash split_at_char is_success is_lv3_success
    account_field account_items str_eq
hl_fetch_position_lem_example =
    hl_fetch_position_lem reals account_cjson account_api (str "ETH/USDC:USDC") (omega arith) refl

hl_fetch_ledger-All_example :
    All (IsEntry reals account_cjson eth) (
      entries reals account_cjson
        (hl_fetch_ledger reals account_cjson ledger_api (some eth) none).1)
    × ((entries reals account_cjson
            (hl_fetch_ledger reals account_cjson ledger_api (some eth) none).1
          ≡ [])
        ⊎ ((user : CString) × (items : List ℕ) × (ledger_api.wallet_address ≡ some user)
            × (reply_items reals account_cjson
                  (ledger_api.post (str "/info") (ledger_request user none))
                ≡ inr items)
            × ((hl_fetch_ledger reals account_cjson ledger_api (some eth) none).0 ≡ success)
            × (length (
                  entries reals account_cjson
                    (hl_fetch_ledger reals account_cjson ledger_api (some eth) none).1)
                ≤ length items)))
hl_fetch_ledger-All_example =
    hl_fetch_ledger-All reals account_cjson ledger_api eth none (omega arith)
