-- ===== src/Lib.antt =====
-- The order and cash core of the Pine backend, a stock trading service.
--
-- An order is placed, validated, checked for risk, held against the user's wallet, queued for a
-- broker, executed and settled; deposits, withdrawals and dividends move cash. Each service of the
-- program is a module here, and the database that the services share is one record of tables that
-- their operations pass on.
--
-- Where the code stands:
-- - Trading/Lifecycle: src/modules/trading/domain/order-lifecycle.ts, the order state machine; Graph
--   has what can be reached along its transitions.
-- - Trading/Fees: src/modules/trading/domain/trading-fee.calculator.ts and the policy of
--   src/modules/brokers/services/fee-policy.service.ts; Sums and Tiers are its theorems.
-- - Trading/Settlement: src/modules/trading/services/settlement.service.ts, the commit that moves
--   cash, ledger, shares and the order's status, with the retry loop in Retry.
-- - Trading/Orders, Trading/Validation, Trading/Execution: order.service.ts, validation.service.ts,
--   and execution-engine.service.ts with broker-gateway.service.ts, in src/modules/trading/services;
--   `executeQueuedOrder` of trading.service.ts is in Trading/Execution.
-- - Trading/Risk: src/modules/trading/services/risk.service.ts, the platform's limits.
-- - Trading/Submission: `submitOrder` of trading.service.ts, the pipeline over all of these and its
--   rejection path, with `replayExistingOrder` and `cancelOrder`. Steps and Ends follow an order
--   through it.
-- - Accounts: `ensureBroker` of src/modules/auth/services/identity.service.ts, and the check of the
--   investor's broker.
-- - Auth: src/modules/auth/services. Otp has the one-time codes of otp.service.ts, Pin the PIN of
--   pin.service.ts with its calls in auth.service.ts and identity.service.ts, Session the sessions and
--   the rotation of refresh tokens of session.service.ts.
-- - Dividends: src/modules/dividends/services/distribution-engine.service.ts, dividends, stock splits
--   and bonus issues.
-- - Kyc/Mrz: src/modules/kyc/ocr/mrz.parser.ts, the zone of an identity card from its three lines on;
--   RoundTrip has the layout of the standard, Checks what a check digit detects.
-- - Kyc/Workflow: src/modules/kyc/services/kyc-workflow.service.ts, applications from their start to the
--   verdict on them, and an error before or after the verdict; Earned and Approval have the calls as a
--   step relation and who is approved. The status that an administrator sets is left out.
-- - Cash: settlement, deposits, withdrawals, holds, dividends, splits and execution as one step
--   relation on the cash tables, in wallets that are there, and the abstract accounts that it refines.
-- - Wallet: src/modules/wallet. Reservations has the holds, Transfers the deposits and withdrawals,
--   Balances the summary and the nightly reconciliation. Ledger and Posting say what it means that a
--   balance agrees with its ledger, and that a posting keeps this; settlement uses it too.
-- - Payments: src/modules/payments/services/card-payment.service.ts. Deposits has what
--   src/modules/wallet/services/wallet.service.ts does with a deposit by the reference of its payment,
--   up to the purchase that a confirmed payment triggers; Gateway what is concluded from the answers of
--   the gateway, src/modules/mastercard-gateway/services/mastercard-gateway.service.ts; Card the capture
--   of a hosted session and the payment with a saved card, Hosted the steps before a capture, Direct the
--   payment with a card's number, and Luhn the test of that number.
-- - Store: the tables of prisma/schema.prisma, and the queries of the repositories.
-- - Decimals: the arithmetic on amounts, an interface that the other modules take as an instance.
-- - Base: lists, integers, results and the two kinds of database access.
--
-- How state is modelled. A table is a list of rows in the order of their creation, ids are numbers
-- and new ones come from a counter. What runs in one `$transaction` is a `Tx`, whose error carries no
-- state; a method that writes before it can fail is an `Action`, whose state comes back after an
-- error. Methods whose checks all come before their first write are written as a `Tx`, which is the
-- same. An idempotency key is a value of the data type Key instead of a string. Concurrent writers
-- appear as what an attempt of the retry loop meets; everything else is one call after another. What
-- the payment gateway, the broker's configuration, a hash or a random source answers to a call is an
-- argument of it.
--
-- decimal.js, the rounding of numbers and the columns of the database are not code of the repository:
-- they are the operations of Decimals, and the theorems on amounts take the laws IsExact as a
-- hypothesis, that results below the precision are not rounded and that a column keeps what already
-- has four places. Decimals/Example has an instance that meets them.
--
-- Where an event of the pipeline ends a hold, its listener runs at once: a rejected or cancelled
-- order releases its hold.
--
-- The retry loop runs on fuel four, the number of attempts in the code, and its theorem says that
-- this is enough.
--
-- Not modelled: the broker column of rows, the times of status changes, logging, metadata of audits,
-- notifications and events beyond those that settle an order or release its hold, the overflow of
-- columns; the broker's concentration and deposit limits and the platform's share of a commission,
-- which are arguments; the requests to the payment gateway and the cards that are saved; registration,
-- login and devices; the scan of documents, whose verdict is an argument; the counts that splits and
-- bonus issues report; how the lines of a zone are found in a scan; the modules of the repository
-- other than those named.
pub mod Base
pub mod Accounts
pub mod Dividends
pub mod Cash
pub mod Kyc
pub mod Auth
pub mod Decimals
pub mod Store
pub mod Trading
pub mod Wallet
pub mod Payments
