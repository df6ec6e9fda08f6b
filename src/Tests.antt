-- ===== src/Tests.antt =====
-- Runs of the modelled code at concrete inputs, and the theorems applied at inputs that meet their
-- hypotheses.
mod Hex
mod Books
mod Positions
mod WebSocket
mod Candles
mod Trading
mod Trades
mod Orders
mod Account
mod Trader
mod Funding
mod Clients
mod Signing
mod Instances
