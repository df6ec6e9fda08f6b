-- ===== src/Clients/Credentials.antt =====
-- What a client of src/client.c keeps of its credentials.
use hyperliquid_c.Prelude.{
  ◌≤◌, ◌≡◌, refl, sym, ap, ◌⊎◌, inl, inr, Bool, true, false, ◌&&◌, none, some, ◌∷◌, arith,
  if◌then◌else◌, Bool-cases, some-injective, length,
}
use hyperliquid_c.Prelude.Text.{CString}
use hyperliquid_c.Prelude.Buffers.{buffer-length, IsText, buffer_lem}
use hyperliquid_c.Trades.{copied}
use hyperliquid_c.Clients.{
  ApiClient, ClientResources, has_prefix, without_prefix, is_valid_wallet, is_valid_key,
  hl_client_create,
}

-- The client that keeps the address and the key without their prefixes.
abbrev pub client_of : CString → CString → Bool → ApiClient
client_of address key testnet = record {
  wallet_address = address;
  private_key = key;
  testnet = testnet;
  http = true;
  timeout_ms = 30000;
  debug = false;
}

abbrev pub is_available : ClientResources → Bool
is_available r = r.calloc && r.mutex_init && r.http_client_create

hl_client_create-valid :
    (r : ClientResources) (wallet_address private_key address key : CString) (testnet : Bool)
    → is_valid_wallet wallet_address ≡ true
    → is_valid_key private_key ≡ true
    → copied 43 (without_prefix wallet_address) ≡ address
    → copied 65 (without_prefix private_key) ≡ key
    → hl_client_create r (some wallet_address) (some private_key) testnet
      ≡ (if is_available r then some (client_of address key testnet) else none)
unfolding hl_client_create
hl_client_create-valid r wallet_address private_key address key testnet w k a b =
    simp (hl_client_create, w, k, a, b) (ground arith)

-- A key of 64 characters may come with "0x" or without, an address of 40 comes with it: the client
-- keeps both without it and whole, and the two spellings of the key give the same client. Where
-- memory, the mutex or the HTTP client is missing, there is no client.
pub hl_client_create_lem :
    (r : ClientResources) (address key : CString) (testnet : Bool)
    → IsText address
    → IsText key
    → length address ≡ 40
    → length key ≡ 64
    → has_prefix key ≡ false
    → let client = if is_available r then some (client_of address key testnet) else none in
      (hl_client_create r (some (48 ∷ 120 ∷ address)) (some key) testnet ≡ client)
      × (hl_client_create r (some (48 ∷ 120 ∷ address)) (some (48 ∷ 120 ∷ key)) testnet ≡ client)
unfolding has_prefix without_prefix is_valid_wallet is_valid_key
hl_client_create_lem r address key testnet text_a text_k size_a size_k plain =
    let a = buffer_lem 43 address text_a (omega arith) in
    let k = buffer_lem 65 key text_k (omega arith) in
    let wallet : is_valid_wallet (48 ∷ 120 ∷ address) ≡ true = ground arith in
    (
      hl_client_create-valid r (48 ∷ 120 ∷ address) key address key testnet wallet (ground arith) a
          (simp (without_prefix, plain) k),
      hl_client_create-valid r (48 ∷ 120 ∷ address) (48 ∷ 120 ∷ key) address key testnet wallet
          (ground arith) a k,
    )

-- A client is only created for an address of at least 42 characters that begins with "0x", and for a
-- key of 64 or 66 characters; its buffers hold fewer characters than they have room for.
pub hl_client_create-some :
    (r : ClientResources) (wallet_address private_key : CString) (testnet : Bool) (c : ApiClient)
    → hl_client_create r (some wallet_address) (some private_key) testnet ≡ some c
    → (42 ≤ length wallet_address)
      × (has_prefix wallet_address ≡ true)
      × ((length private_key ≡ 64) ⊎ (length private_key ≡ 66))
      × (length c.wallet_address ≤ 42)
      × (length c.private_key ≤ 64)
unfolding hl_client_create is_valid_wallet is_valid_key
hl_client_create-some r wallet_address private_key testnet c h =
    elim (Bool-cases (is_valid_wallet wallet_address)) [
      | inr w ↦ cc (rw (hl_client_create, w) at h)
      | inl w ↦ elim (Bool-cases (is_valid_key private_key)) [
        | inr k ↦ cc (rw (hl_client_create, w, k) at h)
        | inl k ↦
            let made =
              hl_client_create-valid r wallet_address private_key
                (copied 43 (without_prefix wallet_address)) (copied 65 (without_prefix private_key))
                testnet w k refl refl in
            elim (Bool-cases (is_available r)) [
              | inr m ↦ cc (rw (made, m) at h)
              | inl m ↦
                  let e = some-injective _ _ (rw (made, m) at h) in
                  (
                    ground arith,
                    ground arith,
                    ground arith,
                    rw (ap (λ x. x.wallet_address) (sym e))
                        (buffer-length 42 (without_prefix wallet_address)),
                    rw (ap (λ x. x.private_key) (sym e))
                        (buffer-length 64 (without_prefix private_key)),
                  )
            ]
      ]
    ]
