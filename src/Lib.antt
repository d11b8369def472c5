-- ===== src/Lib.antt =====
-- Remnashop sells VPN subscriptions through a Telegram bot and a web API. This library models the
-- parts of it that decide about money and access, and proves what makes them correct.
--
-- Payment (src/application/services/payment_idempotency.py,
-- src/infrastructure/database/dao/payment_operation.py and its model). A request to pay carries an
-- idempotency key. `PaymentIdempotencyService.start` (Payment/Idempotency.antt) claims a row of
-- `payment_operations` or answers from it; the DAO's methods (Payment/Dao) are conditional UPDATEs
-- and DELETEs on that table, each a `Statement` of a condition and new values, run by `execute`.
-- Payment/Calls.antt makes every method a `Call`, and `run` applies a history of calls, in any order
-- and at any instants, so a theorem about `run` is about every interleaving of requests, workers and
-- sweepers. Calls are atomic: a call reads the clock once, and what rows other transactions have
-- locked enters as a function (`free`). Payment/Invariant.antt holds the constraints, Payment/Keys.antt
-- the primary key, Payment/History.antt the rule for facts that no call ends.
-- Instants are microseconds on the native numbers. Texts, hashes and JSON documents are only stored
-- and compared there, so numbers stand for them. The unique constraints on the provider key and on
-- the linked transaction, the foreign keys and the CHECK on gateway names are not modelled.
--
-- Pricing (src/application/services/pricing.py). Pricing/Decimal.antt has the operations of Python's
-- `decimal` that prices use: a coefficient and a number of places, the infinities and NaN. A discounted
-- price is rounded to the 28 digits of Python's context, and `quantize` raises where its result has
-- more; zero has no sign. Pricing/Service.antt is `PricingService`, an exception being a result.
--
-- Subscription (src/application/use_cases/subscription/commands/purchase.py). Subscription/Store.antt
-- is the tables of users and subscriptions with the DAO methods that the use cases call;
-- Subscription/Purchase.antt is `PurchaseSubscription` and Subscription/Trial.antt is
-- `ActivateTrialSubscription`. What the Remnawave panel answers to a call is an argument, none where
-- it raises. Both use cases hold the user's subscription lock, so each is one step on the tables, and
-- a transaction that raises leaves them as they were. Python's calendar is an argument with its
-- documented laws (Subscription/Calendar.antt). Subscription/Grace.antt is `EnterGraceMode`
-- (src/application/use_cases/subscription/commands/grace.py).
--
-- Promocode (src/application/use_cases/promocode, src/infrastructure/database/dao/promocode.py).
-- Promocode/Validate.antt is `ValidatePromocode`, Promocode/Reward.antt the rewards, and
-- Promocode/Activate.antt `ActivatePromocode` in two halves: `prepare`, which validates and calls the
-- panel, and `commit`, the transaction. Other users' transactions may run between the two, so
-- Promocode/Limits.antt is about any sequence of transactions of promocodes that were read before.
-- Rewards are amounts of zero or more, as `CreatePromocode` wants; the loader of plan snapshots
-- (adaptix) and Python's `strip` and `upper` are arguments.
--
-- Fulfillment (src/application/use_cases/gateways/commands/payment.py,
-- src/infrastructure/database/dao/transaction.py, src/infrastructure/database/models/transaction.py).
-- A provider's event reaches `ProcessPayment`, which claims the fulfilment of the payment, carries out
-- the purchase and records how it ended. Fulfillment/Row.antt is a row of `transactions` with its
-- CHECK constraints, Fulfillment/Statements the conditional UPDATEs of the DAO, each run by `execute`,
-- which answers none where the database refuses a row. The methods `update`, `update_status` and
-- `transition_status` of the DAO, which nothing in the program calls, are left out. Fulfillment/Process.antt is `ProcessPayment` up
-- to the claim (`receive`) and Fulfillment/Settle.antt the rest (`settle`); between the two, the
-- purchase runs and other processes work on the tables. Fulfillment/Calls.antt has the calls that work
-- on the tables and their histories, in any order; Fulfillment/Calls/Reach.antt shows what they do to be
-- a sequence of the statements, a data type `Reach`, so a property of each statement is one of every
-- history. Fulfillment/Retry.antt is `RetryFailedTransaction`. Fulfillment/Inbox.antt is the inbox of
-- webhooks, and Fulfillment/Worker.antt the worker on it
-- (src/infrastructure/taskiq/tasks/payments.py), with the replay of events in Fulfillment/Worker/Replay
-- (src/application/use_cases/misc/commands/maintenance.py). What rows the CHECKs admit is an argument of the
-- definitions (`admits`), which the theorems that need them instantiate with the program's; how the
-- purchase ends is an argument too, `SideEffect`. The users of a merge keep their transactions here.
--
-- Recovery (src/application/services/payment_recovery_snapshot.py). The snapshot of a resolved payment
-- that the payment operation keeps: Recovery/Value.antt is JSON and its strict readers,
-- Recovery/Snapshot.antt builds a snapshot and Recovery/Reading.antt reads one. Texts are lists of code
-- points there, and the texts of decimals, UUIDs and the client's strategies are arguments.
--
-- Every recursion is on a list, but for the number of digits in Pricing/Decimal.antt, which takes the
-- coefficient as fuel, a number above its number of digits. Not modelled are
-- the interfaces (Telegram, web), HTTP clients, events, logging, background scheduling, referral
-- rewards, the reconciliation worker and the creation of payments.
pub mod Prelude
pub mod Fulfillment
pub mod Payment
pub mod Recovery
pub mod Pricing
pub mod Promocode
pub mod Subscription
