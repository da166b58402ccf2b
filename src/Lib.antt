-- ===== src/Lib.antt =====
-- The decisions of the Writz protocol's TypeScript: a borrower locks BTC on Bitcoin, proves it to the
-- Stellar contracts, borrows USDC and may send it on to Base. The relayer feeds Bitcoin headers and
-- proofs to the contracts and completes the transfers to Base; the app shows a loan's status and
-- takes the borrower through each transaction.
--
-- Bitcoin.Tx: relayer/src/bitcoin/tx.ts, which strips the witness of a transaction before its proof
-- is built and reads an output. A hex text is the list of its bytes; the loops of stripWitness and
-- parseOutput recurse on the counts that they read, and a thrown error is `none`. Bitcoin/Tx/Format
-- is the specification, a serializer of transactions.
--
-- HeaderSync: relayer/src/bitcoin/header-sync.ts, the batches of headers and their submission.
-- planFrom runs on the number of heights left as fuel, withBackoff on one more than the retries, and
-- the theorems on them show that they return. The header source and the submission are parameters; a
-- submission is accepted or refused, and one of unknown outcome (bitcoin/spv-submit.ts) is not
-- represented.
--
-- Flow: frontend/app/src/lib/flow/engine.ts, reduceFlow and the tests on a state, with the reading of
-- a declined signature of lib/wallet/rejection.ts. Flow/Lock is lib/flow/lock.ts: the lock of a tab
-- without Web Locks, whose release function its holder calls once, and the reservation of position
-- indices, where the browser's storage can be read and written; the messages between tabs are left
-- out.
--
-- Status: frontend/app/src/lib/status/derive.ts, the status of a loan from the local record, the
-- chain reads and the relayer's index; Status/Types has the types of status/types.ts.
--
-- Relayer: relayer/src/rate-limit.ts and relayer/src/proof-cache.ts. Both keep a JavaScript Map,
-- which Prelude/OrderedMap models with its insertion order. A promise of the cache is the number of
-- its computation, and its settling is an event.
--
-- Script: bitcoin-script/src/script.ts and bitcoin-script/src/spend.ts, the redeem script of a lock,
-- its two spends and the witness serialization. Script/Machine is the specification: the part of
-- Bitcoin's script machine that the lock uses, with the signature check, SHA-256, the reading of a
-- script and the number encoding as parameters. What bitcoinjs-lib compiles and signs is left out.
--
-- Payment: bitcoin-script/src/payment.ts, the coin selection, fee and change of buildP2wpkhPayment,
-- with a fee rate that is a fraction. The signing of bitcoinjs-lib and its limit on the fee rate of what
-- is signed are left out.
--
-- Keys: bitcoin-script/src/keys.ts, what the signer makes of the public key and the signatures that
-- the key service returns. A thrown error is `none`; Keys/Numbers and Keys/Der have the DER encoding of
-- a signature, the specification.
--
-- Loan: frontend/app/src/lib/loan/model.ts, the amounts of a loan, the actions that its page offers
-- (Loan/Tabs) and the panel that opens first. A reason is named, not spelled; amounts are natural
-- numbers, and a loan's ratio is that of Status.
--
-- Cctp: relayer/src/cctp. Message decodes a burn message and decides whether the relay pays for it
-- (message.ts), Store has the records and the answers of the API (store.ts), Job the calls of the
-- relay (chain.ts, iris.ts), Service, Mint and Relay its jobs, Requests the requests and the map of
-- jobs, Resume the restart (service.ts), where a job runs to its end in one step. A job passes on the
-- relay's state and may throw. The chain, Iris and the indexer are parameters that answer the n-th
-- call as they like, so their state may change between any two calls, and a call takes any time; the
-- clock does not go back. Beside the map of jobs stands the list of those that run. The polling loop runs on fuel, and one more than the confirmation window in
-- milliseconds is enough, since every turn waits at least one. Two jobs are not interleaved: their
-- mints are serialized by the relay's lock, and each writes only the record of its own burn.
--
-- Faucet: relayer/src/faucet, with the memory store of store.ts. Request is the checks of a request
-- (service.ts), Nonce the challenges (nonce.ts), Store the claims (store.ts), Service the limits and
-- the outputs that can be spent, Claim a claim and the status, Events the faucet over the requests that
-- reach it. Pollar, Esplora, the signing and the check of a signature are parameters. A claim is cut
-- where it waits for Pollar and for the lock, so claims interleave there; a payment under the lock is
-- one step. Amounts and times are natural numbers, a fee rate is a fraction.
--
-- Repay: relayer/src/repay-watcher and the cursor check of relayer/src/rpc-cursor.ts. Store is the
-- tables of release-store.ts, Poller the poll cycle, the sweep and the loop of poller.ts, whose prompt
-- retry is that of HeaderSync. The RPC and the handler are parameters, and an event may fail to decode; a turn of the loop may crash
-- behind any number of rows, since each row is settled by one statement.
--
-- Lend: relayer/src/lend-events and relayer/src/lend-rebuild. Archive is the table of store.ts with the
-- decoding of decode.ts, Poller the cycle of poller.ts, Replay the replay and its check against the
-- contract (replay.ts, verify.ts), Rebuild the rounds and the swap (rebuild.ts). The RPC and the
-- contract's views are parameters that answer the n-th call as they like. The file operations succeed,
-- but for the opening of the releases. Pages, cycles and rounds recurse on the limits of the code.
--
-- Not modelled: network and storage access, logging, the HTTP routes, the parts of the relayer not
-- named above, the addresses and messages of bitcoin-script and its calls of key libraries, React
-- code, generated clients, and the Rust contracts. Texts of error messages are kept where the code
-- hands them on.
pub mod Prelude
pub mod Bitcoin
pub mod HeaderSync
pub mod Flow
pub mod Status
pub mod Relayer
pub mod Cctp
pub mod Payment
pub mod Script
pub mod Keys
pub mod Loan
pub mod Lend
pub mod Faucet
pub mod Repay
