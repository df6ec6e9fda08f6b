-- ===== src/Lib.antt =====
-- A model of the Hyperliquid C SDK in antt, and proofs about it.
--
-- The SDK is a client library of the Hyperliquid exchange. A trading call looks up the number of
-- an asset in the market list, packs an action as MessagePack, hashes it with a nonce, signs the
-- hash as an EIP-712 agent message, and posts JSON with the signature. Market data come as JSON
-- over HTTP; a WebSocket client keeps a table of subscriptions.
--
-- Parts, and the file of each (paths from the repository's root):
--   Types            include/hl_error.h and include/hl_http.h: results; and the interfaces Doubles (a
--                    C double and the functions that read and print it) and CJson (cJSON)
--   Crypto.Hex       src/crypto/eip712.c: hex_to_bytes, bytes_to_hex, parse_eth_address
--   Crypto.Keccak    src/crypto/eip712.c: keccak256, over the parameter Sha3
--   Crypto.Ecdsa     src/crypto/eip712.c: ecdsa_sign_secp256k1, over the parameter Secp256k1
--   Crypto.Eip712    src/crypto/eip712.c: the domain, agent and signing hashes, eip712_sign_agent
--   Msgpack          src/msgpack/serialize.c: packing and the action hash, over the parameter Packer
--   Markets          src/markets.c: lookups; Markets.Parse: JSON and the two requests;
--                    Markets.Lookup: how src/orderbook.c and src/ohlcv.c find a symbol
--   Trading          src/trading_api.c: hl_place_order and hl_cancel_order, which use Markets,
--                    Msgpack and Crypto the way the code calls them; Trading.Texts has the
--                    posted texts written out, and Markets.First and Trading.First are about
--                    the market with the id 0
--   Positions        src/leverage.c and src/margin.c; Positions.Signed: their requests as texts
--   Orderbook        src/orderbook.c
--   Trades           src/trades.c, with hl_trade_t of include/hl_types.h
--   Orders           src/orders.c, with hl_order_t of include/hl_types.h; Orders.Parse: JSON;
--                    Orders.Fetches: the fetches; Orders.Batches: batches, which use Trading
--   Account          src/account.c and include/hl_account.h: balances; Account.Positions: positions;
--                    Account.Ledger: the fee and the ledger
--   Trader           src/trading.c: prices and quantities; Trader.Signing: orders and cancels, over
--                    Msgpack and Crypto; Trader.Calls: trades and the calls that copy an answer
--   Contexts         the answer with the universe and the contexts, as src/funding.c and src/markets.c
--                    read it
--   Funding          src/funding.c: rates; Funding.History: the two histories
--   Markets.Interests         the open interests of src/markets.c
--   Tickers          src/ticker.c and src/market_extended.c
--   Currencies       src/currencies.c
--   Clients          src/client.c; Clients.Cached: src/client_new.c, with include/hl_client.h
--   Plain            src/types.c
--   Http             src/http/client.c, over libcurl
--   Exchange         src/exchange.c and include/hl_exchange.h; Exchange.Features: the lookup
--   Ohlcv.TimeFrames, Ohlcv.Candles, Ohlcv.Fetch   src/ohlcv.c
--   WebSocket.Client          src/ws_client.c
--   WebSocket.Subscriptions   src/websocket.c
--   Tests            concrete runs, concrete parameters (Tests.Instances), and an application of
--                    each result at a concrete input
-- Prelude has the shared helpers: lists and tests on native numbers, words and C strings.
--
-- How C is read: a C string is the list of its bytes; a buffer that the code fills with strncpy is
-- a list of bytes with its zeros, one filled by snprintf is cut to its size. A pointer that may be
-- null is an Option, an early return is a value of a sum or an HlError. What another system
-- answers (HTTP, clock, allocation, threads, UUIDs) is an argument of the call. Uninitialised
-- memory is an argument too (Locals, `garbage`, `old`), and so is the size of the symbol in an
-- hl_orderbook_t, which no header declares.
--
-- src/orders.c calls hl_cancel_order without the symbol that include/hyperliquid.h declares, so the
-- batch of cancels has that call as an argument. src/account.c defines hl_fetch_position twice:
-- first_fetch_position is the first definition and hl_fetch_position the second, whose pointer to
-- coin_buf is read as the text that was copied there. What src/trading.c builds with cJSON is a
-- JsonTree, which an argument prints; its numbers are doubles, as in cJSON. The `int` that
-- hex_to_bytes returns is given by its bits.
--
-- Bounds: uint64_t subtraction and size_t addition wrap at 2^64, the length that keccak256 passes
-- on and the hours of the funding history wrap at 2^32. All loops are structural; the only fuel is that of `decimal`, which prints a
-- number with the number itself as fuel, and each digit divides it by ten.
--
-- Not modelled: src/crypto/keccak.c (a copy of SHA3IUF), libcurl, the mutexes (a call is one step)
-- and the body of the WebSocket thread; src/transfers.c, which has stubs only; hl_fetch_swap_markets
-- and hl_fetch_spot_markets of src/markets.c, which compare an enum with a text; src/simple_types.c
-- and src/http/simple_client.c, which repeat src/types.c and src/http/client.c; and the formatting of
-- dates.
pub mod Prelude
pub mod Types
pub mod Crypto
pub mod Msgpack
pub mod WebSocket
pub mod Ohlcv
pub mod Markets
pub mod Trading
pub mod Positions
pub mod Orderbook
pub mod Trades
pub mod Orders
pub mod Account
pub mod Trader
pub mod Contexts
pub mod Funding
pub mod Exchange
pub mod Clients
pub mod Tickers
pub mod Currencies
pub mod Plain
pub mod Http
mod Tests
