-- ===== src/WebSocket/Subscriptions.antt =====
-- src/websocket.c: the table of subscriptions of a client. `hl_ws_subscription_t` is declared
-- nowhere in the repository, so the sizes of its two text fields are parameters here, and its id is
-- the text that libuuid wrote.
pub mod Unwatch
pub mod Table
pub mod Calls
use hyperliquid_c.WebSocket.Client.{
  WsClient, Resources, no_callbacks, hl_ws_config_default, hl_ws_client_create,
  hl_ws_client_connect, hl_ws_client_disconnect, hl_ws_client_destroy, hl_ws_client_send,
  hl_ws_client_is_connected, hl_ws_client_set_message_callback, hl_ws_client_set_error_callback,
  hl_ws_client_set_connect_callback,
}
use hyperliquid_c.Prelude.{
  ℕ, zero, suc, ◌+◌, ◌-◌, ◌*◌, ◌/◌, ◌%◌, ◌^◌, ◌≤◌, ◌<◌, min, String, ◌≡◌, refl, sym, ap, ap₂, ◌∙◌,
  ◌≢◌, ◌↔◌, ◌⊎◌, inl, inr, Bool, true, false, not, ◌&&◌, ◌||◌, Option, none, some, List, [], ◌∷◌,
  ◌++◌, map, arith, ltb, leb, ◌==◌, if◌then◌else◌, ltb→lt, lt→ltb, leb→le, ==_iff, ==_refl,
  Bool-cases, Option-cases, &&-eq-true, ◌>>=◌, ◌>>◌, guard, some-injective, >>=-eq-some,
  guard-eq-some, length, get_elem?, set, take, drop, replicate, length-append, length-set,
  length-take, length-drop, length-replicate, take_all, take-append_le, take-append-drop,
  append_cancel, All,
}
use hyperliquid_c.Prelude.Text.{
  CString, str, str_eq, str_eq_refl, str_eq→eq, str_eq_iff, split_at_char, strncpy, c_str, snprintf,
}

-- `hl_ws_subscription_t`; `channel` and `symbol` are the bytes of its buffers.
pub record Subscription : Type 0 where
  pub subscription_id : CString
  pub channel : List ℕ
  pub symbol : List ℕ
  pub callback : ℕ
  pub user_data : Option ℕ
  pub active : Bool

-- `hl_client_ws_extension_t`
pub record Extension : Type 0 where
  pub ws_client : WsClient
  pub subscriptions : List Subscription
  pub subscription_count : ℕ
  pub subscription_capacity : ℕ

-- The fields of `hl_client_t` that this file uses.
pub record Client : Type 0 where
  pub ws_extension : Option Extension
  pub wallet_address : Option CString

-- What the system answers in one call: whether a thread starts, what new memory holds if there is
-- any, and the next UUID.
pub record System : Type 0 where
  pub thread : Bool
  pub realloc : Option (ℕ → Subscription)
  pub uuid : CString

abbrev pub garbage : (ℕ → Subscription) → ℕ → List Subscription
garbage f zero = []
garbage f (suc n) = f n ∷ garbage f n

abbrev pub new_capacity : ℕ → ℕ
new_capacity capacity = if capacity * 2 == 0 then 8 else capacity * 2

abbrev pub grow : (ℕ → Subscription) → Extension → Extension
grow f e = record e {
  subscriptions =
      e.subscriptions ++ garbage f (new_capacity e.subscription_capacity - e.subscription_capacity);
  subscription_capacity = new_capacity e.subscription_capacity;
}

-- The array with room for one more, or nothing where `realloc` fails.
unfoldable pub expand : System → Extension → Option Extension
expand sys e =
    if leb e.subscription_capacity e.subscription_count
    then elim sys.realloc [ none ↦ none | some f ↦ some (grow f e) ]
    else some e

-- Connects where that is needed.
unfoldable pub ensure_connected : System → WsClient → WsClient × Bool
ensure_connected sys w =
    if hl_ws_client_is_connected w
    then (w, true)
    else let (w1, created, _) = hl_ws_client_connect sys.thread w in (w1, created)

module _ (channel_size symbol_size : ℕ) where
  -- The slot `old` with the fields of a new subscription. A missing symbol leaves that buffer.
  unfoldable pub fill :
      System → CString → Option CString → ℕ → Option ℕ → Subscription → Subscription
  fill sys channel symbol callback user_data old = record {
    subscription_id = sys.uuid;
    channel = strncpy old.channel channel (channel_size - 1);
    symbol = elim symbol [ none ↦ old.symbol | some s ↦ strncpy old.symbol s (symbol_size - 1) ];
    callback = callback;
    user_data = user_data;
    active = true;
  }

  unfoldable pub add_subscription :
      System → Extension → CString → Option CString → ℕ → Option ℕ → Extension × Option CString
  add_subscription sys e channel symbol callback user_data = elim (expand sys e) [
    | none ↦ (e, none)
    | some g ↦ elim (get_elem? g.subscriptions g.subscription_count) [
      | none ↦ (g, none)
      | some old ↦ (
        record g {
          subscriptions =
              set g.subscriptions g.subscription_count
                (fill sys channel symbol callback user_data old);
          subscription_count = suc g.subscription_count;
        },
        some sys.uuid,
      )
    ]
  ]

  -- The part that the watch functions share. No message stands for a missing wallet address.
  unfoldable pub watch :
      System
      → Extension
      → Option CString
      → CString
      → Option CString
      → ℕ
      → Option ℕ
      → Extension × Option CString
  watch sys e message channel symbol callback user_data =
      let (w, ok) = ensure_connected sys e.ws_client in
      let e1 = record e { ws_client = w } in
      if ok
      then elim message [
        | none ↦ (e1, none)
        | some text ↦
            let (w2, sent) = hl_ws_client_send w (snprintf 256 text) in
            let e2 = record e { ws_client = w2 } in
            if sent then add_subscription sys e2 channel symbol callback user_data else (e2, none)
      ]
      else (e1, none)

  -- The checks of the pointers, and the extension put back into the client.
  unfoldable pub with_extension :
      Client → Option ℕ → (Extension → ℕ → Extension × Option CString) → Client × Option CString
  with_extension c callback f = elim callback [
    | none ↦ (c, none)
    | some cb ↦ elim c.ws_extension [
      | none ↦ (c, none)
      | some e ↦ let (e1, id) = f e cb in (record c { ws_extension = some e1 }, id)
    ]
  ]

  abbrev pub subscribe_text : String → CString → CString
  subscribe_text kind coin =
      str "{\"method\":\"subscribe\",\"subscription\":{\"type\":\""
      ++ str kind
      ++ str "\",\"coin\":\""
      ++ coin
      ++ str "\"}}"

  unfoldable pub hl_watch_ticker :
      System → Client → Option CString → Option ℕ → Option ℕ → Client × Option CString
  hl_watch_ticker sys c symbol callback user_data = elim symbol [
    | none ↦ (c, none)
    | some s ↦ with_extension c callback (λ e cb.
        watch sys e (some (subscribe_text "ticker" s)) (str "ticker") (some s) cb user_data)
  ]

  unfoldable pub hl_watch_tickers :
      System → Client → List CString → Option ℕ → Option ℕ → Client × Option CString
  hl_watch_tickers sys c symbols callback user_data =
      hl_watch_ticker sys c (some (str "*")) callback user_data

  unfoldable pub hl_watch_order_book :
      System → Client → Option CString → ℕ → Option ℕ → Option ℕ → Client × Option CString
  hl_watch_order_book sys c symbol depth callback user_data = elim symbol [
    | none ↦ (c, none)
    | some s ↦ with_extension c callback (λ e cb.
        watch sys e (some (subscribe_text "l2Book" s)) (str "l2Book") (some s) cb user_data)
  ]

  unfoldable pub hl_watch_ohlcv :
      System
      → Client
      → Option CString
      → Option CString
      → Option ℕ
      → Option ℕ
      → Client × Option CString
  hl_watch_ohlcv sys c symbol timeframe callback user_data = elim symbol [
    | none ↦ (c, none)
    | some s ↦ elim timeframe [
      | none ↦ (c, none)
      | some t ↦ with_extension c callback (λ e cb.
          watch sys e
            (some (
              str "{\"method\":\"subscribe\",\"subscription\":{\"type\":\"candle\",\"coin\":\""
              ++ s
              ++ str "\",\"interval\":\""
              ++ t
              ++ str "\"}}"))
            (str "candle") (some s) cb user_data)
    ]
  ]

  unfoldable pub hl_watch_trades :
      System → Client → Option CString → Option ℕ → Option ℕ → Client × Option CString
  hl_watch_trades sys c symbol callback user_data = elim symbol [
    | none ↦ (c, none)
    | some s ↦ with_extension c callback (λ e cb.
        watch sys e (some (subscribe_text "trades" s)) (str "trades") (some s) cb user_data)
  ]

  abbrev pub user_text : String → Option CString → Option CString
  user_text kind none = none
  user_text kind (some user) = some (
      str "{\"method\":\"subscribe\",\"subscription\":{\"type\":\""
      ++ str kind
      ++ str "\",\"user\":\""
      ++ user
      ++ str "\"}}")

  unfoldable pub hl_watch_orders :
      System → Client → Option CString → Option ℕ → Option ℕ → Client × Option CString
  hl_watch_orders sys c symbol callback user_data = with_extension c callback (λ e cb.
      watch sys e (user_text "orderUpdates" c.wallet_address) (str "orderUpdates") symbol cb
        user_data)

  unfoldable pub hl_watch_my_trades :
      System → Client → Option CString → Option ℕ → Option ℕ → Client × Option CString
  hl_watch_my_trades sys c symbol callback user_data = with_extension c callback (λ e cb.
      watch sys e (user_text "userFills" c.wallet_address) (str "userFills") symbol cb user_data)

-- The loop of `hl_unwatch` over the first `count` slots: the slots with the first match
-- deactivated, and the match.
unfoldable pub unwatch_loop :
    CString → ℕ → List Subscription → Option (List Subscription × Subscription)
unwatch_loop id zero subs = none
unwatch_loop id (suc count) [] = none
unwatch_loop id (suc count) (s ∷ subs) =
    let rest = unwatch_loop id count subs in
    if str_eq s.subscription_id id
    then some (record s { active = false } ∷ subs, s)
    else elim rest [ none ↦ none | some (subs1, t) ↦ some (s ∷ subs1, t) ]

unfoldable pub hl_unwatch : Client → Option CString → Client × Bool
hl_unwatch c id = elim id [
  | none ↦ (c, false)
  | some i ↦ elim c.ws_extension [
    | none ↦ (c, false)
    | some e ↦ elim (unwatch_loop i e.subscription_count e.subscriptions) [
      | none ↦ (c, false)
      | some (subs, s) ↦
          let text =
            str "{\"method\":\"unsubscribe\",\"subscription\":{\"type\":\""
            ++ c_str s.channel
            ++ str "\"}}" in
          let (w, _) = hl_ws_client_send e.ws_client (snprintf 256 text) in
          (
            record c { ws_extension = some (record e { ws_client = w; subscriptions = subs }) },
            true,
          )
    ]
  ]
]

-- Whether the extension could be allocated is `calloc`. The three handlers print what they are
-- given; their addresses are the numbers 1, 2 and 3, and the client's is `self`.
unfoldable pub hl_ws_init_client : Bool → Resources → ℕ → Client → Bool → Client × Bool
hl_ws_init_client calloc res self c testnet =
    if calloc
    then elim (hl_ws_client_create res (some (hl_ws_config_default testnet))) [
      | none ↦ (c, false)
      | some w ↦
          let w1 = hl_ws_client_set_message_callback w (some 1) (some self) in
          let w2 = hl_ws_client_set_error_callback w1 (some 2) (some self) in
          let w3 = hl_ws_client_set_connect_callback w2 (some 3) (some self) in
          (
            record c {
              ws_extension = some (record {
                ws_client = w3;
                subscriptions = [];
                subscription_count = 0;
                subscription_capacity = 0;
              });
            },
            true,
          )
    ]
    else (c, false)

-- The client without its extension, and the threads that are left with the freed one.
unfoldable pub hl_ws_cleanup_client : Client → Client × ℕ
hl_ws_cleanup_client c = elim c.ws_extension [
  | none ↦ (c, 0)
  | some e ↦
      (record c { ws_extension = none }, hl_ws_client_destroy (hl_ws_client_disconnect e.ws_client))
]
