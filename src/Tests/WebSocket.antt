-- ===== src/Tests/WebSocket.antt =====
-- The WebSocket client and its subscriptions (src/ws_client.c, src/websocket.c) at concrete inputs.
use mathlib.Core.Path.{refl, subst}
use hyperliquid_c.Prelude.{
  ◌+◌, ◌≡◌, refl, true, false, none, some, [], ◌∷◌, arith, some-injective, replicate,
}
use hyperliquid_c.Prelude.Text.{str}
use hyperliquid_c.WebSocket.Client.{
  Config, no_callbacks, WsClient, Resources, hl_ws_client_create, hl_ws_client_connect,
  hl_ws_client_disconnect, hl_ws_client_destroy, hl_ws_client_send, hl_ws_client_is_connected,
}
use hyperliquid_c.WebSocket.Client.Reach.{
  here, next, connect, IsConsistent, Reach-IsConsistent, destroy-threads,
}
use hyperliquid_c.WebSocket.Subscriptions.{
  Subscription, Extension, Client, System, hl_unwatch, hl_watch_ticker, with_extension, watch,
  ensure_connected, add_subscription, expand, fill,
}
use hyperliquid_c.WebSocket.Subscriptions.Table.{IsTable, entries}
use hyperliquid_c.WebSocket.Subscriptions.Calls.{
  ticker, Outcome, IsTables, run_watch, run_watch-Outcome,
}
use hyperliquid_c.WebSocket.Subscriptions.Unwatch.{has_id, deactivate, hl_unwatch_lem}

abbrev resources : Resources
resources = record { client = true; internal = true; mutex = true }

abbrev config : Config
config = record {
  url = some (str "wss://localhost/ws");
  reconnect_delay_ms = 5000;
  ping_interval_ms = 30000;
  timeout_ms = 10000;
  auto_reconnect = true;
  max_reconnect_attempts = 10;
}

abbrev created : WsClient
created = record {
  internal = record {
    config = config;
    connected = false;
    running = false;
    callbacks = no_callbacks;
    socket_fd = none;
  };
  config = config;
  callbacks = no_callbacks;
  connected = false;
  running = false;
  threads = 0;
  sent = [];
}

abbrev connected_client : WsClient
connected_client = (hl_ws_client_connect true created).0

Reach-IsConsistent_example : IsConsistent connected_client
unfolding hl_ws_client_create
Reach-IsConsistent_example =
    Reach-IsConsistent resources (some config) {s = created} {c = connected_client} refl
      (next here (connect true created))

-- The thread of a connected client is left behind by a clean-up.
destroy-threads_example :
    (hl_ws_client_destroy (hl_ws_client_disconnect connected_client) ≡ connected_client.threads)
    × (connected_client.running ≡ true
        → hl_ws_client_destroy connected_client + 1 ≡ connected_client.threads)
unfolding hl_ws_client_create
destroy-threads_example =
    destroy-threads resources (some config) {s = created} {c = connected_client} refl
      (next here (connect true created))

abbrev blank : Subscription
blank = record {
  subscription_id = [];
  channel = replicate 16 0;
  symbol = replicate 16 0;
  callback = 0;
  user_data = none;
  active = false;
}

abbrev table : Extension
table = record {
  ws_client = created;
  subscriptions = record blank { subscription_id = str "id-1"; active = true } ∷ blank ∷ [];
  subscription_count = 1;
  subscription_capacity = 2;
}

table-IsTable : IsTable table
table-IsTable = record { count_le = omega arith; slots = refl }

abbrev client : Client
client = record { ws_extension = some table; wallet_address = some (str "0x00") }

abbrev system : System
system = record { thread = true; realloc = none; uuid = str "id-2" }

client-IsTables : IsTables client
client-IsTables e h = subst (λ t. IsTable t) (some-injective _ _ h) table-IsTable

-- A second subscription goes to the free slot.
watched :
    (hl_watch_ticker 16 16 system client (some (str "BTC")) (some 7) none).1 ≡ some (str "id-2")
unfolding hl_watch_ticker with_extension watch ensure_connected hl_ws_client_is_connected
    hl_ws_client_connect hl_ws_client_send add_subscription expand fill
watched = refl

run_watch-Outcome_example :
    Outcome 16 16 system client
      (run_watch 16 16 system (ticker (some (str "BTC"))) client (some 7) none).0
      (run_watch 16 16 system (ticker (some (str "BTC"))) client (some 7) none).1
run_watch-Outcome_example =
    run_watch-Outcome 16 16 system (ticker (some (str "BTC"))) client (some 7) none client-IsTables

hl_unwatch_lem_example :
    ((hl_unwatch client (some (str "id-1"))).1 ≡ has_id (str "id-1") (entries table))
    × ((e1 : Extension) × ((hl_unwatch client (some (str "id-1"))).0.ws_extension ≡ some e1)
        × IsTable e1
        × (entries e1 ≡ deactivate (str "id-1") (entries table)))
hl_unwatch_lem_example = hl_unwatch_lem client table (str "id-1") refl table-IsTable
