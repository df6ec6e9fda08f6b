-- ===== src/WebSocket/Client/Reach.antt =====
-- The clients that the public calls can lead to, and what holds of all of them.
use hyperliquid_c.Prelude.{
  if◌then◌else◌, ◌==◌, not, ◌&&◌, false, ◌∷◌, ◌++◌, [], length, refl, ◌+◌, ℕ, ◌<◌, ◌≡◌, Bool, true,
  Option, some, arith,
}
use hyperliquid_c.WebSocket.Client.{
  hl_ws_client_is_connected, hl_ws_client_destroy, Config, WsClient, Resources, hl_ws_client_create,
  hl_ws_client_connect, hl_ws_client_disconnect, hl_ws_client_send,
  hl_ws_client_set_message_callback, hl_ws_client_set_error_callback,
  hl_ws_client_set_connect_callback,
}
use hyperliquid_c.Prelude.Text.{CString}

-- One public call, with whatever the system answers.
pub data Step : WsClient → WsClient → Type 0 where
  connect : (created : Bool) (c : WsClient) → Step c (hl_ws_client_connect created c).0
  disconnect : (c : WsClient) → Step c (hl_ws_client_disconnect c)
  send : (c : WsClient) (message : CString) → Step c (hl_ws_client_send c message).0
  set_message : (c : WsClient) (f u : Option ℕ) → Step c (hl_ws_client_set_message_callback c f u)
  set_error : (c : WsClient) (f u : Option ℕ) → Step c (hl_ws_client_set_error_callback c f u)
  set_connect : (c : WsClient) (f u : Option ℕ) → Step c (hl_ws_client_set_connect_callback c f u)

pub data Reach (s : WsClient) : WsClient → Type 0 where
  here : Reach s s
  next : {c d : WsClient} → Reach s c → Step c d → Reach s d

-- The two structs agree, connected means running, and a running client has a thread.
pub record IsConsistent (c : WsClient) : Type 0 where
  pub same_connected : c.internal.connected ≡ c.connected
  pub same_running : c.internal.running ≡ c.running
  pub connected_runs : c.connected ≡ c.running
  pub same_config : c.internal.config ≡ c.config
  pub same_callbacks : c.internal.callbacks ≡ c.callbacks
  pub has_thread : c.running ≡ true → 0 < c.threads

create-IsConsistent :
    (res : Resources) (config : Option Config) {c : WsClient}
    → hl_ws_client_create res config ≡ some c
    → IsConsistent c
unfolding hl_ws_client_create
create-IsConsistent res config h = ground arith

Step-IsConsistent : {c d : WsClient} → Step c d → IsConsistent c → IsConsistent d
unfolding hl_ws_client_connect hl_ws_client_disconnect hl_ws_client_send
    hl_ws_client_set_message_callback hl_ws_client_set_error_callback
    hl_ws_client_set_connect_callback
Step-IsConsistent (connect created c) v = ground arith
Step-IsConsistent (disconnect c) v = ground arith
Step-IsConsistent (send c message) v = ground arith
Step-IsConsistent (set_message c f u) v = ground arith
Step-IsConsistent (set_error c f u) v = ground arith
Step-IsConsistent (set_connect c f u) v = ground arith

-- Every client that public calls lead to from a created one keeps its two structs in agreement:
-- the inner and the outer flags are equal, connected is running, the configurations and callbacks
-- are copies of each other, and a running client has a thread to join.
pub Reach-IsConsistent :
    (res : Resources) (config : Option Config) {s c : WsClient}
    → hl_ws_client_create res config ≡ some s
    → Reach s c
    → IsConsistent c
Reach-IsConsistent res config h here = create-IsConsistent res config h
Reach-IsConsistent res config h (next r st) =
    Step-IsConsistent st (Reach-IsConsistent res config h r)

-- On a client that public calls lead to, a message is sent exactly when it is not empty and
-- `hl_ws_client_is_connected` says so, and then it is the last line sent; else nothing changes.
pub Reach-send :
    (res : Resources) (config : Option Config) {s c : WsClient} (message : CString)
    → hl_ws_client_create res config ≡ some s
    → Reach s c
    → hl_ws_client_send c message ≡ (
        if not (length message == 0) && hl_ws_client_is_connected c
        then (record c { sent = c.sent ++ message ∷ [] }, true)
        else (c, false))
unfolding hl_ws_client_send hl_ws_client_is_connected
Reach-send res config message h r =
    let v = Reach-IsConsistent res config h r in let e = v.same_connected in ground arith

-- The order that `hl_ws_cleanup_client` uses: destroying after disconnecting joins no thread, so
-- all that were started are left with the freed client; destroying a running client joins one.
pub destroy-threads :
    (res : Resources) (config : Option Config) {s c : WsClient}
    → hl_ws_client_create res config ≡ some s
    → Reach s c
    → (hl_ws_client_destroy (hl_ws_client_disconnect c) ≡ c.threads)
      × (c.running ≡ true → hl_ws_client_destroy c + 1 ≡ c.threads)
unfolding hl_ws_client_disconnect hl_ws_client_destroy
destroy-threads res config h r =
    let v = Reach-IsConsistent res config h r in (refl, λ w. let t = v.has_thread w in ground arith)
