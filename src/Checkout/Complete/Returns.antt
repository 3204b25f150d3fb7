-- ===== src/Checkout/Complete/Returns.antt =====
-- Completions of a checkout and their answers (internal/devserver/stripemock_mcp.go).
use hamr.Base.{List, ◌∷◌, ◌≡◌}
use hamr.Base.Assoc.{Assoc}
use hamr.Billing.{Billing}
use hamr.Billing.Session.{StripeSession, StripeLineItem}
use hamr.Checkout.{Checkout}

-- `buildSessionFromParams` refuses a form without line items.
abbrev pub HasLine : StripeSession → Type 0
HasLine sess =
    (li : StripeLineItem) × (items : List StripeLineItem) × (sess.line_items ≡ li ∷ items)
