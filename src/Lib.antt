-- ===== src/Lib.antt =====
-- Verification of parts of hamr, a Go web framework with a dev server.
--
-- The main part is the mock Stripe backend of the dev server (internal/devserver/stripemock*.go):
-- one value of type StripeMock holds its maps, and each handler that moves money is a function
-- from the request and the state to an answer, the state left behind and the webhook events queued.
--
-- Stripe/Form: the decoded form and its readers (getString, getInt64, getBool, stringMap).
-- Stripe/Objects, Stripe/State: the stored structs, the StripeMock maps, answers and events.
-- Stripe/PaymentIntent: createPaymentIntent, confirmPaymentIntent, capturePaymentIntent
-- (stripemock_paymentintent.go) and handlePaymentIntentComplete (stripemock_paymentintent_page.go).
-- Stripe/Refund: createRefund and applyRefund (stripemock_refund.go).
-- Stripe/Transfer: createTransfer and createTransferReversal (stripemock_transfer.go).
-- Stripe/Payout: createPayout, handlePayoutComplete and payoutAccountBalance.
-- Stripe/Dispute: openDispute and closeDispute (stripemock_dispute.go).
-- Stripe/BalanceSettings: handleBalanceSettings (stripemock_balance.go), on its own map of settings.
-- Stripe/Ledger: the ledgers and balances derived from the stored objects (stripemock_ledger.go).
-- Stripe/Run: any sequence of these requests but those on settings. A handler makes its writes, and the tests that they
-- rest on, under one hold of the mock's lock, so that a concurrent run is such a sequence; only the
-- test that an account exists is made under an earlier hold when an intent or a payout is created.
-- Stripe/Status: the status machine of intents, apart from the code's tests.
-- Stripe/Valid, Stripe/Accounting, Stripe/Lifecycle, Stripe/Refusals, Stripe/Events and children of
-- Stripe/Ledger hold what is proved of them.
--
-- Billing: the subscriptions of the mock, their invoices and payments
-- (stripemock_subscription.go), the mock clock that renews them (stripemock_clock.go) and coupons
-- (stripemock_coupon.go). It holds a StripeMock, to which payments add intents and charges.
-- Billing/Session has the checkout sessions with validateLineItems, and Billing/Price the products and
-- prices with claimLookupKeyLocked (stripemock_price.go). Billing/Calendar has periodEnd, Billing/Invoice newInvoiceLocked and payInvoiceLocked,
-- Billing/Cancel cancelSubscriptionLocked, Billing/Cycle cycleSubscriptionLocked and
-- retrySubscriptionLocked, Billing/Clock advanceClock, and Billing/Coupon applyDiscount and
-- redeemDiscount. Go's calendar and the operations of float64 (Base/Float) are parameters, with what
-- Go and IEEE 754 document as hypotheses. Billing/Collect has sequences of cycles, retries and
-- cancellations, and Billing/Finality these together with the requests of Stripe/Run.
--
-- Checkout: what the buyer does, over billing, coupons, prices, customers and sessions.
-- Checkout/Create has the part of createCheckoutSession under the lock (stripemock.go),
-- Checkout/Subscribe createSubscriptionLocked (stripemock_subscription.go), and Checkout/Payment and
-- Checkout/Complete completeCheckout and expireSession (stripemock_mcp.go) with the outcomes of
-- stripemock_page.go. Checkout/Run has any sequence of these operations, with the other parts of the
-- mock free to change the rest of the state in between. A panic is `none`.
--
-- Gate: the password gate of the dev server (internal/devserver/gate.go), on texts as bytes and times in
-- whole seconds; Gate/Cookies is about the cookies that it sends on.
--
-- Auth: the session manager (pkg/auth/session.go) over any store, which is a record of operations with
-- a record of what it must keep, and Auth/Password the PHC format of hashes (pkg/auth/auth.go).
--
-- Hub: the WebSocket hub (pkg/websocket/hub.go). A state holds the maps and the client objects that
-- they point to, by address; every operation holds the hub's lock and is one step, and `none` is a
-- panic: a channel closed twice or a send on a closed one.
--
-- Mailbox: the escape of bodies in the mbox file of the mail mock, its inverse and the cut into
-- entries (internal/devserver/mailmock_mbox.go), on bytes.
--
-- Graph: the graph of watch rules (internal/devserver/graph.go): the marks and the wait, with channels
-- as addresses, and the order of the rules (Graph/Order), whose loop has fuel for each node.
--
-- Four smaller parts: RateLimit (pkg/middleware/ratelimit.go), LogBuffer
-- (internal/devserver/logbuffer.go), Pagination (pkg/respond/pagination.go) and Flags (pkg/flags).
--
-- Base holds what they share: integers over the native numbers with Go's int64 wrap-around written
-- out (Base/Int64), association lists for Go maps (Base/Assoc), lists and Boolean tests. Iteration
-- over a map visits the list in order. The tests stand under Tests.
--
-- A request's draws of randomHex, its readings of the clock, and strings.ToLower and
-- strings.TrimSpace come from outside, as the fields of Env; the clock of the rate limiter is an
-- argument. Ids that are drawn may repeat, so that a draw is new is a hypothesis where it matters.
-- The loop of advanceClock runs on fuel, and the seconds that are left to the live subscriptions are
-- shown to be enough; so does that of TopologicalOrder, for which the number of the nodes is; every
-- other loop is structural on the list that it visits.
--
-- Not modelled: HTTP routing and reading, serialization to JSON and HTML, persistence and the
-- delivery of webhooks, which are I/O; buildSessionFromParams, whose result is an argument of the
-- creation of a session, and the checks of the forms of prices; the handlers that create or edit
-- subscriptions and coupons; the PostgreSQL store of the rate limiter; the pumps of a WebSocket;
-- detectCycles of the graph; the headers and MIME parts of mails; the page of the gate and its
-- delay after a wrong password; the options and cookies of sessions; Argon2, base64 and HMAC, which
-- are parameters; the generator and the CLI.
pub mod Auth
pub mod Base
pub mod Billing
pub mod Checkout
pub mod Flags
pub mod Gate
pub mod Graph
pub mod Hub
pub mod LogBuffer
pub mod Mailbox
pub mod Pagination
pub mod RateLimit
pub mod Stripe
pub mod Tests
