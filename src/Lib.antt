-- ===== src/Lib.antt =====
-- coinos-server: a web server for bitcoin accounts. Paths are relative to the repository's root.
--
-- Balances live in a TigerBeetle cluster behind lib/tb.ts; lib/payments.ts moves money between
-- users and the outside world on top of it; lib/withdraw-breaker.ts, lib/spend-budget.ts and
-- meltguard.ts bound how much may leave; lib/nwc.ts asks for payments on behalf of apps,
-- lib/cpfp.ts raises their fees, and lib/zmq.ts hears of the blocks that confirm them.
--
-- Base: the names that the modules share, Boolean tests, and integers over the native numbers
--   (`bigint` values, and `number` values that the code keeps integral).
-- Ledger: lib/tb.ts. Ids has the ids of accounts and Distinct their separation; Client is the
--   `tigerbeetle-node` client as a parameter, with the cluster's documented laws as hypotheses, and
--   Cluster a cluster that keeps them; Debit and Operations have one function per exported
--   operation; Posting, Effects, Refunds and Credits prove what they do. A call reads the cluster
--   and later submits a batch, with other requests in between: `tbDebit` is a plan made in one
--   state and a commit in another. Amounts are natural numbers, as every caller checks before it
--   calls.
-- Limits: lib/withdraw-breaker.ts (Breaker; Ceiling for sends one after the other, Races for
--   overlapping ones), lib/spend-budget.ts (Allowance) and meltguard.ts (Meltguard, whose requests
--   are split where the handler awaits).
-- Payments: lib/payments.ts. Store is the state, Debit the function `debit` as a chain of steps
--   that keeps what was written before a failure, Credit the functions `credit` and `sendInternal`
--   (Claims and Kept for what is credited once, Amounts and Internal for how much), Route the
--   choice between nodes, waiting, finalizing and reversing, Controls the limits and what funds may
--   pay out, Sending sendLightning up to its debit and sendKeysend (Claims for one call, Flights
--   for many, Baseline for a keysend that threw), Onchain sendOnchain (Covered counts outputs,
--   Backed is the debit behind them, Released what a failure gives back), Building the amounts of a
--   new transaction (Fits), Onward what completePayment passes on (Kept and Reserve for what
--   stays), Settle the functions `finalize` and `reverse` with the parts that other calls run
--   between.
--
-- Wallet: lib/nwc.ts. Admission is which events are taken up (Once, Rate), Containment which
--   requests come to a handler (Barred), Budget what an app may spend (Window), Instruction what a
--   payment string asks for (First), and Handlers are those that spend (Guarded). A handler lists
--   its calls of lib/payments.ts, and Budget runs the check and the limit of lib/spend-budget.ts.
--
-- Bump: lib/cpfp.ts and lib/p2a.ts. Child, Parent and Send have the three functions that build
--   transactions; what the node answers is an argument.
--
-- Blocks: lib/zmq.ts. VarInt and Transaction read sizes (Format is Bitcoin's format as an
--   independent description, Size compares the two), Announced walks a block, and Frames is the
--   connection (Chunks for where the stream is cut, Delivery for what arrives).
--
-- Database: lib/db.ts, the reads that fall back to the archive (Batch for many at once).
--
-- Net: lib/safe-fetch.ts. Addresses are those a request may not go to, once their text is read
--   (Ranges compares them with ranges), Fetch is a request with its redirects (Public is where it
--   connects). The time limit and the headers are left out.
--
-- Bounds: numbers are natural numbers and integers without a bound; the code's `number` values stay
-- far below 2 ^ 53, and ids are taken modulo 2 ^ 128 as the code does. A rate of `config.fee` is a
-- fraction, multiplied exactly, where the code rounds a floating product. The loops of Blocks count
-- the rounds of the code; `loop` has as many as the buffer has bytes, and each takes two bytes at
-- least.
--
-- Not modelled: HTTP, the nodes, Nostr and mail, which are I/O; exchange rates and texts of
-- records, which move no money; notifications, relays and encryption, the decoding of transactions
-- and the connections to databases, which are libraries or I/O.
pub mod Base
pub mod Ledger
pub mod Limits
pub mod Payments
pub mod Wallet
pub mod Bump
pub mod Blocks
pub mod Database
pub mod Net
