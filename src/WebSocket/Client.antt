-- ===== src/WebSocket/Client.antt =====
-- src/ws_client.c. The connection itself is a placeholder in the source: connecting sets flags and
-- starts a thread. A pointer is a number, and null is `none`.
pub mod Reach
use hyperliquid_c.Prelude.{
  ℕ, zero, suc, ◌+◌, ◌-◌, ◌*◌, ◌/◌, ◌%◌, ◌^◌, ◌≤◌, ◌<◌, min, String, ◌≡◌, refl, sym, ap, ap₂, ◌∙◌,
  ◌≢◌, ◌↔◌, ◌⊎◌, inl, inr, Bool, true, false, not, ◌&&◌, ◌||◌, Option, none, some, List, [], ◌∷◌,
  ◌++◌, map, arith, ltb, leb, ◌==◌, if◌then◌else◌, ltb→lt, lt→ltb, leb→le, ==_iff, ==_refl,
  Bool-cases, Option-cases, &&-eq-true, ◌>>=◌, ◌>>◌, guard, some-injective, >>=-eq-some,
  guard-eq-some, length, get_elem?, set, take, drop, replicate, length-append, length-set,
  length-take, length-drop, length-replicate, take_all, take-append_le, take-append-drop,
  append_cancel, All,
}
use hyperliquid_c.Prelude.Text.{
  CString, str, str_eq, str_eq_refl, str_eq→eq, str_eq_iff, split_at_char, strncpy, c_str, snprintf,
}

-- `hl_ws_config_t`
pub record Config : Type 0 where
  pub url : Option CString
  pub reconnect_delay_ms : ℕ
  pub ping_interval_ms : ℕ
  pub timeout_ms : ℕ
  pub auto_reconnect : Bool
  pub max_reconnect_attempts : ℕ

-- The three callbacks and the pointer that they are given; both structs hold a copy.
pub record Callbacks : Type 0 where
  pub on_message : Option ℕ
  pub on_error : Option ℕ
  pub on_connect : Option ℕ
  pub user_data : Option ℕ

abbrev pub no_callbacks : Callbacks
no_callbacks = record { on_message = none; on_error = none; on_connect = none; user_data = none }

-- `ws_client_internal_t`; a negative `socket_fd` is `none`.
pub record Internal : Type 0 where
  pub config : Config
  pub connected : Bool
  pub running : Bool
  pub callbacks : Callbacks
  pub socket_fd : Option ℕ

-- `hl_ws_client_t` with its `internal`, and what the process has: the threads that were started and
-- not joined, and the lines that were sent.
pub record WsClient : Type 0 where
  pub internal : Internal
  pub config : Config
  pub callbacks : Callbacks
  pub connected : Bool
  pub running : Bool
  pub threads : ℕ
  pub sent : List CString

unfoldable pub hl_ws_config_default : Bool → Config
hl_ws_config_default testnet = record {
  url = some (
      if testnet
      then str "wss://api.hyperliquid-testnet.xyz/ws"
      else str "wss://api.hyperliquid.xyz/ws");
  reconnect_delay_ms = 5000;
  ping_interval_ms = 30000;
  timeout_ms = 10000;
  auto_reconnect = true;
  max_reconnect_attempts = 10;
}

-- The two allocations and the mutex, in the order in which they are tried.
pub record Resources : Type 0 where
  pub client : Bool
  pub internal : Bool
  pub mutex : Bool

unfoldable pub hl_ws_client_create : Resources → Option Config → Option WsClient
hl_ws_client_create res config = do
  c ← config
  u ← c.url
  guard res.client
  guard res.internal
  guard res.mutex
  some (record {
    internal = record {
      config = c;
      connected = false;
      running = false;
      callbacks = no_callbacks;
      socket_fd = none;
    };
    config = c;
    callbacks = no_callbacks;
    connected = false;
    running = false;
    threads = 0;
    sent = [];
  })

-- All four flags are set and cleared together.
abbrev pub set_flags : Bool → WsClient → WsClient
set_flags b c = record c {
  internal = record c.internal { connected = b; running = b };
  connected = b;
  running = b;
}

-- The new client, the result, and the argument of `on_connect` where it is called. Whether
-- `pthread_create` succeeds is `created`.
unfoldable pub hl_ws_client_connect : Bool → WsClient → WsClient × Bool × Option (Option ℕ)
hl_ws_client_connect created c =
    if created
    then (
      record (set_flags true c) { threads = c.threads + 1 },
      true,
      elim c.callbacks.on_connect [ none ↦ none | some f ↦ some c.callbacks.user_data ],
    )
    else (set_flags false c, false, none)

unfoldable pub hl_ws_client_disconnect : WsClient → WsClient
hl_ws_client_disconnect c =
    let d = set_flags false c in record d { internal = record d.internal { socket_fd = none } }

-- Destroying frees both structs. What is left: the threads that were not joined, which may still
-- read the freed memory.
unfoldable pub hl_ws_client_destroy : WsClient → ℕ
hl_ws_client_destroy c = if c.running then c.threads - 1 else c.threads

unfoldable pub hl_ws_client_send : WsClient → CString → WsClient × Bool
hl_ws_client_send c message =
    if length message == 0
    then (c, false)
    else if not c.internal.connected
    then (c, false)
    else (record c { sent = c.sent ++ message ∷ [] }, true)

unfoldable pub hl_ws_client_is_connected : WsClient → Bool
hl_ws_client_is_connected c = c.connected

unfoldable pub hl_ws_client_set_message_callback : WsClient → Option ℕ → Option ℕ → WsClient
hl_ws_client_set_message_callback c callback user_data = record c {
  callbacks = record c.callbacks { on_message = callback; user_data = user_data };
  internal = record c.internal {
    callbacks = record c.internal.callbacks { on_message = callback; user_data = user_data };
  };
}

unfoldable pub hl_ws_client_set_error_callback : WsClient → Option ℕ → Option ℕ → WsClient
hl_ws_client_set_error_callback c callback user_data = record c {
  callbacks = record c.callbacks { on_error = callback; user_data = user_data };
  internal = record c.internal {
    callbacks = record c.internal.callbacks { on_error = callback; user_data = user_data };
  };
}

unfoldable pub hl_ws_client_set_connect_callback : WsClient → Option ℕ → Option ℕ → WsClient
hl_ws_client_set_connect_callback c callback user_data = record c {
  callbacks = record c.callbacks { on_connect = callback; user_data = user_data };
  internal = record c.internal {
    callbacks = record c.internal.callbacks { on_connect = callback; user_data = user_data };
  };
}

-- One round of the thread: `none` ends it, else the seconds that it sleeps.
unfoldable pub ws_client_thread : WsClient → Option ℕ
ws_client_thread c =
    if c.internal.running
    then some (if c.internal.connected then 30 else c.internal.config.reconnect_delay_ms / 1000)
    else none
