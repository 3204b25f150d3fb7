-- ===== src/Stripe/PaymentIntent.antt =====
-- Payment intents from creation to a charge (internal/devserver/stripemock_paymentintent.go, and the
-- outcome buttons of stripemock_paymentintent_page.go).
pub mod Start
pub mod Finish
