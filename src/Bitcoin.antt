-- ===== src/Bitcoin.antt =====
-- Bytes as Node's `Buffer` reads them, shared by `bitcoin-script/` and `relayer/src/bitcoin/`.
pub mod Bytes
pub mod Tx
