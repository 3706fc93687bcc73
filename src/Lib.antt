-- ===== src/Lib.antt =====
-- A verification library of a backend that sells proxies: users pay money into a wallet, buy orders
-- from it, redeem vouchers, get promotion bonuses on deposits, and earn commissions on the orders
-- of the users they referred.
--
-- Common holds what the parts share: Boolean tests on native numbers, lists, results, integers
-- (Common/Int), JavaScript's checked integers (Common/Values), text, sorting and the updates of
-- the entries of a list (Common/Updates).
--
-- Promotion is src/deposit-promotions. Promotion/Quote has vnd, calculateQuote and intentEligible of
-- deposit-promotions.service.ts; Promotion/Catalog its save, remove, edit and the program of the
-- moment, with the writes of other editors as an argument of the compare-and-set loop; and
-- Promotion/Claim its code, createIntent and claim. Promotion/Credit is credit of
-- deposit-credit.service.ts, which freezes a quote in a plan and pays it with a receipt. The theorems
-- stand in QuoteLaws, Overlaps and CatalogLaws, ClaimLaws, and Payments and CreditLaws.
--
-- Orders is src/orders/orders.service.ts. Orders/Pricing has resolveBandwidthTier and
-- resolvePricing, Orders/Offer quoteBandwidth, which calls them, Orders/Refund approveRefund,
-- adminRefund, refundMissingQuantity, retryOrder, updateStatus and updatePaymentStatus on the
-- documents they touch, Orders/Topup topUpBandwidth with its idempotency key, Orders/Status the enums
-- of src/enum/order.enum.ts. The theorems stand in
-- PricingLaws, OfferLaws (with NextTier), RefundLaws, Approval, TopupLaws (with TopupPrice) and
-- TopupRepeats.
--
-- Affiliate is src/affiliate/affiliate.service.ts on the documents of Affiliate/State:
-- Affiliate/Commissions has handleOrderActive, handleOrderExpired, creditCommission and updateConfig,
-- Affiliate/Withdrawals the requests for money, their approval and their rejection. Affiliate/Books
-- and Affiliate/Requests relate balances and commissions; Affiliate/Run runs any sequence of calls.
--
-- Vouchers is src/vouchers. Vouchers/Rules has the price rules of voucher.rules.ts and quote,
-- Vouchers/Editing its validateVoucher; Vouchers/Authority every update of the voucher document's
-- quotas in vouchers.service.ts, as a step; Vouchers/Purchase is recover, from the created intent to
-- the inserted order, through the quota steps and the wallet's receipts, with its ledger and dispatch
-- in Vouchers/Dispatch; and Vouchers/Refund refund and settle. The theorems stand in RuleLaws,
-- EditingLaws, Moves and Quotas, in PurchaseLaws, Receipts, Paid and Delivery, and in RefundLaws.
--
-- Accounts is src/users/users.service.ts: deposit, deduct and setCommissionRate (Accounts/Money), and
-- the balances against the manual transactions (Accounts/Ledger).
--
-- Countries is src/countries. Of country-policy.ts it has validateCountryConfig (Countries/Policy)
-- with the list of assigned codes (Countries/Iso), and what an accepted configuration keeps to
-- (PolicyLaws). Countries/Selection is effective and select of
-- src/countries/country-policy.service.ts, with the cache's entry as an argument, and SelectionLaws
-- what a purchase gets.
--
-- Webhook is src/webhook/webhook.service.ts: the search for references in a text (Webhook/Matching),
-- the stored documents with findUserFromContent and the call of credit on them (Webhook/State),
-- handlePays2 and handleSepay (Webhook/Transfers), approveTransaction and rejectTransaction
-- (Webhook/Review), and generateUniqueTopupCode of users.service.ts (Webhook/Codes). The theorems
-- stand in CreditStep, Safety, Payees and CodeLaws.
--
-- Renewal is the renewal of src/orders/orders.service.ts, which src/renew calls: renewOrderProxies and
-- renewByUser (Renewal/Order), and bulkRenewByUser with pruneUnrenewedProxies (Renewal/Bulk). What a
-- provider answers, and what other calls do to the user's money meanwhile, are parameters. The
-- theorems stand in Charges and Totals.
--
-- Worker is src/orders/orders.worker.service.ts, with materialize and recoverAffiliate of
-- src/vouchers/vouchers.service.ts and the claim of syncProviderOrder of src/orders/orders.service.ts.
-- Worker/State has the documents, the lock and the counts of the calls outside, Worker/Products the
-- choice of the product, Worker/Delivery what the goods do, and Worker/Steps processOrder, cut at the
-- places where it reads or writes what other runs see: a run is at a stage, and each step takes it to
-- the next. process_order is a run on its own; Worker/Interleaved has any number of runs of one order
-- side by side. Worker/Polling is pollUntilActive of src/orders/orders-processing.worker.service.ts
-- and Worker/Recovery is tryRecover of src/orders/orders-recovery.scheduler.ts; Worker/Expiry is
-- checkExpiredOrders of src/orders/orders-expiration.scheduler.ts. An attempt and the record of its
-- answer are one step, as are the insertions and the count of the proxies. The theorems stand in
-- Ending and Settling, in VoucherSafety and GpnipSafety (with Fences, VoucherFence and GpnipFence), in
-- ProductLaws, Fulfilment, PollingLaws, RecoveryLaws and ExpiryLaws.
--
-- Services is src/services/product-mapping.ts: validateProductMapping and resolveProduct
-- (Services/Mapping). MappingLaws compares its HomeProxy products with the buying worker's, ChoiceLaws
-- says which choice it takes.
--
-- Bounds and fuel: the catalog's edit makes the source's 20 attempts; decimal digits and the search
-- for references in a text take the number and the text's length as fuel, which each step lowers. The
-- worker's run has 11 steps, which its three attempts and its stages never exceed, and the polling
-- makes the source's 20 attempts. Lists are walked structurally. Safe integers are bounded by 2 ^ 53 - 1,
--  the caps of reservations and receipts are the source's 10,000.
--
-- What stands for what: identifiers, which are only compared, are numbers; times are milliseconds;
-- rates and percentages are hundredths of a percent; money is whole VND, which the source's doubles
-- hold exactly below 2 ^ 53; an affiliate commission that comes to a fraction of a VND, where the
-- source sums rounded doubles, ends a run of the affiliate model. A document update with its filter is
-- one step. The upper case of a text is that of ASCII. The size of a document ($bsonSize) is a
-- parameter of the voucher's operations.
--
-- Not modelled: the order log, the webhook log and the service log, the times that documents only
-- carry, HTTP, the database itself and its outages, Redis but for the worker's lock, the push of a
-- voucher's order and the top-up's idempotency entry, and concurrency other than the interference
-- given to edit and to renewals, the free order of the voucher's updates, and the runs of the worker.
-- Of the orders: purchase, the schedulers but for recovery and expiry, the provider connectors. Of the
-- workers: the metadata of orders and proxies, the half hour after which the partner's failures are
-- forgotten, and the window and the batch of the recovery. Of the vouchers: the write of an edited
-- voucher, confirmed failures and reconciliation. Of the webhooks: Binance Pay, which is a skeleton in
-- the source. Authentication, seeds, dashboards and listings are glue, data or third-party protocols.
pub mod Common
pub mod Countries
pub mod Promotion
pub mod Orders
pub mod Affiliate
pub mod Vouchers
pub mod Accounts
pub mod Webhook
pub mod Worker
pub mod Services
pub mod Renewal
