-- ===== src/Account.antt =====
-- src/account.c: balances, with the structs of include/hl_account.h. A node that is a text is taken to
-- have one, as in cJSON; the coin of a spot balance is taken to be a text.
pub mod Positions
pub mod Ledger
use hyperliquid_c.Prelude.{
  ℕ, zero, suc, ◌+◌, ◌-◌, ◌*◌, ◌/◌, ◌%◌, ◌^◌, ◌≤◌, ◌<◌, min, String, ◌≡◌, refl, sym, ap, ap₂, ◌∙◌,
  ◌≢◌, ◌↔◌, ◌⊎◌, inl, inr, Bool, true, false, not, ◌&&◌, ◌||◌, Option, none, some, List, [], ◌∷◌,
  ◌++◌, map, arith, ltb, leb, ◌==◌, if◌then◌else◌, ltb→lt, lt→ltb, leb→le, ==_iff, ==_refl,
  Bool-cases, Option-cases, Sum-cases, &&-eq-true, ◌>>=◌, ◌>>◌, guard, some-injective, >>=-eq-some,
  guard-eq-some, length, get_elem?, set, take, drop, replicate, length-append, length-set,
  length-take, length-drop, length-replicate, get_elem?-drop, get_elem?-lt, drop-head, All-append,
  All-map, All-get_elem?, take_all, take-append_le, take-append-drop, append_cancel, All,
}
use hyperliquid_c.Prelude.Text.{
  CString, str, str_eq, str_eq_refl, str_eq→eq, str_eq_iff, split_at_char, strncpy, c_str, snprintf,
}
use hyperliquid_c.Types.{
  HlError, success, auth, memory, network, json, api, parse, invalid_params, not_found, is_success,
  is_lv3_success, Doubles, CJson, HttpResult,
}
use mathlib.Core.Logic.{◌⊎◌, inl, inr}
use hyperliquid_c.Markets.Lookup.{info_url}
use hyperliquid_c.Trades.{copied}

-- What the rest of the system answers: the wallet's address, whether the client has an HTTP handle,
-- whether memory is there, and the HTTP request.
pub record AccountApi : Type 0 where
  pub wallet : Option CString
  pub http : Bool
  pub testnet : Bool
  pub calloc : Bool
  pub post : CString → CString → HttpResult

-- `hl_account_type_t`
pub data AccountType : Type 0 where
  perpetual : AccountType
  spot : AccountType

unfoldable pub account_request : CString → CString → CString
account_request type wallet =
    snprintf 512 (str "{\"type\":\"" ++ type ++ str "\",\"user\":\"" ++ wallet ++ str "\"}")

module _ (d : Doubles) where
  -- `hl_spot_balance_t`
  pub record SpotBalance : Type 0 where
    pub coin : CString
    pub total : d.Real
    pub hold : d.Real
    pub available : d.Real

  abbrev pub zero_spot_balance : SpotBalance
  zero_spot_balance = record {
    coin = [];
    total = d.zero_real;
    hold = d.zero_real;
    available = d.zero_real;
  }

  -- `hl_balance_t`
  pub record Balance : Type 0 where
    pub type : AccountType
    pub account_value : d.Real
    pub total_margin_used : d.Real
    pub total_ntl_pos : d.Real
    pub total_raw_usd : d.Real
    pub withdrawable : d.Real
    pub cross_account_value : d.Real
    pub cross_margin_used : d.Real
    pub cross_maintenance_margin_used : d.Real
    pub spot_balances : Option (List SpotBalance)
    pub spot_balance_count : ℕ
    pub timestamp : ℕ

  abbrev pub zero_balance : Balance
  zero_balance = record {
    type = perpetual;
    account_value = d.zero_real;
    total_margin_used = d.zero_real;
    total_ntl_pos = d.zero_real;
    total_raw_usd = d.zero_real;
    withdrawable = d.zero_real;
    cross_account_value = d.zero_real;
    cross_margin_used = d.zero_real;
    cross_maintenance_margin_used = d.zero_real;
    spot_balances = none;
    spot_balance_count = 0;
    timestamp = 0;
  }

module _ (d : Doubles) (j : CJson d) where
  -- A text as a number, and of anything else what cJSON holds as its number.
  unfoldable pub real_value : j.Node → d.Real
  real_value n =
      if j.is_string n
      then elim (j.valuestring n) [ none ↦ d.zero_real | some s ↦ d.atof s ]
      else j.valuedouble n

  -- The same for a field of an object, 0 where the object or the field is missing.
  unfoldable pub number_field : Option j.Node → CString → d.Real
  number_field none key = d.zero_real
  number_field (some object) key = elim (j.get_object_item object key) [
    | none ↦ d.zero_real
    | some n ↦ real_value n
  ]

  -- The JSON that is posted for, or the error.
  unfoldable pub account_json : AccountApi → CString → HlError ⊎ j.Node
  account_json x type = elim x.wallet [
    | none ↦ inl invalid_params
    | some wallet ↦
        let r = x.post (info_url x.testnet) (account_request type wallet) in
        if not x.http
        then inl invalid_params
        else if not (is_lv3_success r.err)
        then inl network
        else if not (r.status_code == 200)
        then inl api
        else elim (r.body >>= j.parse_text) [ none ↦ inl parse | some n ↦ inr n ]
  ]

  -- A text field of any kind of node that has one.
  unfoldable pub time_field : j.Node → ℕ
  time_field object = elim (j.get_object_item object (str "time") >>= j.valuestring) [
    | none ↦ 0
    | some s ↦ d.atoll s
  ]

  -- The balance is zero before both calls.
  unfoldable pub fetch_perpetual_balance : AccountApi → HlError × Balance d
  fetch_perpetual_balance x = elim (account_json x (str "clearinghouseState")) [
    | inl e ↦ (e, zero_balance d)
    | inr n ↦
        (let margin_summary = j.get_object_item n (str "marginSummary") in
          let cross_summary = j.get_object_item n (str "crossMarginSummary") in
          (
            success,
            record {
              type = perpetual;
              account_value = number_field margin_summary (str "accountValue");
              total_margin_used = number_field margin_summary (str "totalMarginUsed");
              total_ntl_pos = number_field margin_summary (str "totalNtlPos");
              total_raw_usd = number_field margin_summary (str "totalRawUsd");
              withdrawable = number_field (some n) (str "withdrawable");
              cross_account_value = number_field cross_summary (str "accountValue");
              cross_margin_used = number_field cross_summary (str "totalMarginUsed");
              cross_maintenance_margin_used =
                  number_field (some n) (str "crossMaintenanceMarginUsed");
              spot_balances = none;
              spot_balance_count = 0;
              timestamp = time_field n;
            },
          ))
  ]

  unfoldable pub spot_fields : j.Node → Option (j.Node × j.Node × j.Node)
  spot_fields item = do
    coin ← j.get_object_item item (str "coin")
    total ← j.get_object_item item (str "total")
    hold ← j.get_object_item item (str "hold")
    some (coin, total, hold)

  -- One slot of the array: it stays zero where a field is missing.
  unfoldable pub spot_balance : j.Node → SpotBalance d
  spot_balance item = elim (spot_fields item) [
    | none ↦ zero_spot_balance d
    | some (coin, total, hold) ↦ record {
      coin = elim (j.valuestring coin) [ none ↦ [] | some s ↦ copied 32 s ];
      total = real_value total;
      hold = real_value hold;
      available = d.sub (real_value total) (real_value hold);
    }
  ]

  unfoldable pub spot_slots : List j.Node → List (SpotBalance d)
  spot_slots [] = []
  spot_slots (item ∷ items) = spot_balance item ∷ spot_slots items

  unfoldable pub fetch_spot_balance : AccountApi → HlError × Balance d
  fetch_spot_balance x = elim (account_json x (str "spotClearinghouseState")) [
    | inl e ↦ (e, zero_balance d)
    | inr n ↦
        elim (do a ← j.get_object_item n (str "balances"); guard (j.is_array a); some (j.items a)) [
          | none ↦ (parse, zero_balance d)
          | some items ↦
              if length items == 0
              then (
                success,
                record (zero_balance d) {
                  spot_balances = none;
                  spot_balance_count = 0;
                  type = spot;
                },
              )
              else if not x.calloc
              then (memory, zero_balance d)
              else (
                success,
                record (zero_balance d) {
                  type = spot;
                  spot_balances = some (spot_slots items);
                  spot_balance_count = length items;
                  account_value = d.zero_real;
                  total_margin_used = d.zero_real;
                  withdrawable = d.zero_real;
                },
              )
        ]
  ]

  unfoldable pub hl_fetch_balance : AccountApi → AccountType → HlError × Balance d
  hl_fetch_balance x perpetual = fetch_perpetual_balance x
  hl_fetch_balance x spot = fetch_spot_balance x
