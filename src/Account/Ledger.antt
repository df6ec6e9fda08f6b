-- ===== src/Account/Ledger.antt =====
-- src/account.c: the trading fee and the ledger. `balance` of an entry is never written and left out;
-- so are `since` as a number and `limit`, which the file never reads.
pub mod Entries
use hyperliquid_c.Prelude.{
  ℕ, zero, suc, ◌+◌, ◌-◌, ◌*◌, ◌/◌, ◌%◌, ◌^◌, ◌≤◌, ◌<◌, min, String, ◌≡◌, refl, sym, ap, ap₂, ◌∙◌,
  ◌≢◌, ◌↔◌, ◌⊎◌, inl, inr, Bool, true, false, not, ◌&&◌, ◌||◌, Option, none, some, List, [], ◌∷◌,
  ◌++◌, map, arith, ltb, leb, ◌==◌, if◌then◌else◌, ltb→lt, lt→ltb, leb→le, ==_iff, ==_refl,
  Bool-cases, Option-cases, Sum-cases, &&-eq-true, ◌>>=◌, ◌>>◌, guard, some-injective, >>=-eq-some,
  guard-eq-some, length, get_elem?, set, take, drop, replicate, length-append, length-set,
  length-take, length-drop, length-replicate, get_elem?-drop, get_elem?-lt, drop-head, All-append,
  All-map, All-get_elem?, take_all, take-append_le, take-append-drop, append_cancel, All,
}
use hyperliquid_c.Prelude.Text.{
  CString, str, str_eq, str_eq_refl, str_eq→eq, str_eq_iff, split_at_char, strncpy, c_str, snprintf,
}
use hyperliquid_c.Types.{
  HlError, success, auth, memory, network, json, api, parse, invalid_params, not_found, is_success,
  is_lv3_success, Doubles, CJson, Lv3Error, decimal,
}
use mathlib.Core.Logic.{◌⊎◌, inl, inr}
use hyperliquid_c.Trades.{TradesApi, copied}
use hyperliquid_c.Orders.Parse.{reply_items}

module _ (d : Doubles) where
  -- `hl_trading_fee_t`
  pub record TradingFee : Type 0 where
    pub symbol : CString
    pub maker_fee : d.Real
    pub taker_fee : d.Real

  -- The same for every symbol.
  unfoldable pub hl_fetch_trading_fee : CString → HlError × TradingFee
  hl_fetch_trading_fee symbol = (
    success,
    record {
      symbol = copied 64 symbol;
      maker_fee = d.atof (str "-0.0002");
      taker_fee = d.atof (str "0.0006");
    },
  )

  -- `hl_ledger_entry_t`
  pub record LedgerEntry : Type 0 where
    pub id : CString
    pub timestamp : CString
    pub datetime : CString
    pub currency : CString
    pub amount : d.Real
    pub type : CString
    pub reference_id : CString
    pub info : CString

  abbrev pub zero_entry : LedgerEntry
  zero_entry = record {
    id = [];
    timestamp = [];
    datetime = [];
    currency = [];
    amount = d.zero_real;
    type = [];
    reference_id = [];
    info = [];
  }

  unfoldable pub entry_type : d.Real → CString
  entry_type amount =
      if d.less d.zero_real amount
      then str "deposit"
      else if d.less amount d.zero_real
      then str "withdrawal"
      else str "transfer"

-- strrchr(s, c) + 1: the text behind the last `c`, if there is one.
unfoldable pub after_last : ℕ → CString → Option CString
after_last c [] = none
after_last c (b ∷ s) = elim (after_last c s) [
  | none ↦ if b == c then some s else none
  | some t ↦ some t
]

-- What is posted: `since` goes behind the brace that closes the object, and a brace goes behind that.
unfoldable pub since_request : CString → CString → Option CString → CString
since_request type user since =
    let base : CString =
      snprintf 512 (str "{\"type\":\"" ++ type ++ str "\",\"user\":\"" ++ user ++ str "\"}") in
    let filter : CString = elim since [
      | none ↦ []
      | some s ↦
          if length s == 0
          then []
          else take (512 - length base - 1) (snprintf 256 (str ",\"startTime\":" ++ s))
    ] in
    snprintf 1024 ((base ++ filter) ++ str "}")

unfoldable pub ledger_request : CString → Option CString → CString
ledger_request user since = since_request (str "userNonFundingLedgerUpdates") user since

-- An entry of another currency than the one that is asked for.
unfoldable pub is_filtered : Option CString → CString → Bool
is_filtered none currency = false
is_filtered (some wanted) currency = not (length wanted == 0) && not (str_eq currency wanted)

module _ (d : Doubles) (j : CJson d) where
  unfoldable pub with_time : Option j.Node → LedgerEntry d → LedgerEntry d
  with_time none e = e
  with_time (some n) e =
      if j.is_number n
      then (let text = snprintf 32 (decimal (d.to_u64 (j.valuedouble n))) in
          record e { timestamp = text; datetime = text })
      else e

  unfoldable pub with_hash : Option j.Node → LedgerEntry d → LedgerEntry d
  with_hash none e = e
  with_hash (some n) e =
      if j.is_string n
      then elim (j.valuestring n) [
        | none ↦ e
        | some s ↦ elim (after_last 45 s) [
          | none ↦ record e { id = copied 64 s }
          | some t ↦ record e { id = copied 64 s; reference_id = copied 64 t }
        ]
      ]
      else e

  unfoldable pub with_coin : Option j.Node → LedgerEntry d → LedgerEntry d
  with_coin none e = e
  with_coin (some n) e =
      if j.is_string n
      then elim (j.valuestring n) [
        | none ↦ e
        | some s ↦ record e { currency = if str_eq s (str "USDC") then str "USDC" else copied 16 s }
      ]
      else e

  unfoldable pub with_amount : Option j.Node → LedgerEntry d → LedgerEntry d
  with_amount none e = e
  with_amount (some n) e =
      if j.is_string n
      then elim (j.valuestring n) [ none ↦ e | some s ↦ record e { amount = d.atof s } ]
      else if j.is_number n
      then record e { amount = j.valuedouble n }
      else e

  unfoldable pub with_delta : Option j.Node → LedgerEntry d → LedgerEntry d
  with_delta none e = e
  with_delta (some delta) e =
      if j.is_object delta
      then with_amount (j.get_object_item delta (str "sz"))
          (with_coin (j.get_object_item delta (str "coin")) e)
      else e

  unfoldable pub with_type : LedgerEntry d → LedgerEntry d
  with_type e = record e { type = entry_type d e.amount }

  -- What the loop writes into the slot, over what the slot holds.
  unfoldable pub fill_entry : j.Node → LedgerEntry d → LedgerEntry d
  fill_entry item slot = with_type (
      with_delta (j.get_object_item item (str "delta")) (
        with_hash (j.get_object_item item (str "hash"))
          (with_time (j.get_object_item item (str "time")) slot)))

  unfoldable pub with_info : j.Node → LedgerEntry d → LedgerEntry d
  with_info item e = elim (j.print_unformatted item) [
    | none ↦ e
    | some text ↦ record e { info = copied 1024 text }
  ]

  -- The loop: `slot` is what the next free slot holds, which an entry that is skipped leaves written.
  unfoldable pub ledger_loop : Option CString → LedgerEntry d → List j.Node → List (LedgerEntry d)
  ledger_loop currency slot [] = []
  ledger_loop currency slot (item ∷ items) =
      let e = fill_entry item slot in
      let no_object = ledger_loop currency slot items in
      let skipped = ledger_loop currency e items in
      let kept = ledger_loop currency (zero_entry d) items in
      if not (j.is_object item)
      then no_object
      else if is_filtered currency e.currency
      then skipped
      else with_info item e ∷ kept

  unfoldable pub hl_fetch_ledger :
      TradesApi → Option CString → Option CString → HlError × Option (List (LedgerEntry d))
  hl_fetch_ledger x currency since = elim x.wallet_address [
    | none ↦ (auth, none)
    | some user ↦ elim (reply_items d j (x.post (str "/info") (ledger_request user since))) [
      | inl e ↦ (e, none)
      | inr items ↦
          if length items == 0
          then (success, none)
          else if not x.calloc
          then (memory, none)
          else (success, some (ledger_loop currency (zero_entry d) items))
    ]
  ]
