-- ===== src/Billing/Price.antt =====
-- Products, prices and lookup keys (internal/devserver/stripemock_price.go).
pub mod Keys
use hamr.Base.{
  ℕ, String, Bool, true, false, not, ◌&&◌, Option, none, some, List, [], ◌∷◌, ◌==◌, if◌then◌else◌,
}
use hamr.Base.Int.{ℤ}
use hamr.Base.Assoc.{Assoc, lookup, insert}
use hamr.Stripe.Objects.{Metadata}

pub record StripeProduct : Type 0 where
  pub id : String
  pub name : String
  pub description : String
  pub active : Bool
  pub created : ℕ
  pub metadata : Metadata

pub record StripePrice : Type 0 where
  pub id : String
  pub product_id : String
  pub currency : String
  pub unit_amount : ℤ
  pub interval : String
  pub interval_count : ℤ
  pub nickname : String
  pub lookup_key : String
  pub active : Bool
  pub created : ℕ
  pub metadata : Metadata

pub record Catalogue : Type 0 where
  pub products : Assoc StripeProduct
  pub prices : Assoc StripePrice

pub data PriceProblem : Type 0 where
  no_such_product no_such_price key_in_use : PriceProblem

abbrev pub without_key : StripePrice → StripePrice
without_key p = record p { lookup_key = "" }

-- The loop of `claimLookupKeyLocked` over the prices other than the one under `id`: `none` is the error.
unfoldable pub release_key : String → String → Bool → Assoc StripePrice → Option (Assoc StripePrice)
release_key id key transfer [] = some []
release_key id key transfer ((j, other) ∷ rest) = elim (release_key id key transfer rest) [
  | none ↦ none
  | some rest' ↦
      if not (j == id) && (other.lookup_key == key)
      then if transfer then some ((j, without_key other) ∷ rest') else none
      else some ((j, other) ∷ rest')
]

-- `claimLookupKeyLocked`: the other prices, and the price that takes the key.
unfoldable pub claim_lookup_key :
    String
    → StripePrice
    → String
    → Bool
    → Assoc StripePrice
    → Option (StripePrice × Assoc StripePrice)
unfolding release_key
claim_lookup_key id pr key transfer prices =
    elim (if key == "" then some prices else release_key id key transfer prices) [
      | none ↦ none
      | some prices' ↦ some (record pr { lookup_key = key }, prices')
    ]

unfoldable pub resolve_price : String → Catalogue → Option (StripePrice × Option StripeProduct)
unfolding lookup
resolve_price id st = elim (lookup id st.prices) [
  | none ↦ none
  | some p ↦ some (p, lookup p.product_id st.products)
]

unfoldable pub product_known : StripePrice → Option StripeProduct → Catalogue → Bool
unfolding lookup
product_known pr inline st = elim inline [
  | some _ ↦ true
  | none ↦ elim (lookup pr.product_id st.products) [ none ↦ false | some _ ↦ true ]
]

-- The part of `createPrice` under the lock, for a price that it has built, the product that is to be
-- created with it, if any, and the key asked for.
unfoldable pub create_price :
    StripePrice → Option StripeProduct → String → Bool → Catalogue → Option PriceProblem × Catalogue
unfolding insert claim_lookup_key product_known
create_price pr inline key transfer st =
    let products : Assoc StripeProduct = elim inline [
      | none ↦ st.products
      | some p ↦ insert p.id p st.products
    ] in
    if not (product_known pr inline st)
    then (some PriceProblem.no_such_product, st)
    else elim (claim_lookup_key pr.id pr key transfer st.prices) [
      | none ↦ (some PriceProblem.key_in_use, st)
      | some (pr', prices) ↦
          (none, record { products = products; prices = insert pr.id pr' prices })
    ]

-- The form of an update; `active` is "" and the others are `none` where it does not set them.
pub record PriceForm : Type 0 where
  pub active : String
  pub metadata : Metadata
  pub nickname : Option String
  pub lookup_key : Option String
  pub transfer : Bool

abbrev pub edit_price : PriceForm → StripePrice → StripePrice
edit_price form pr = record pr {
  active = if form.active == "" then pr.active else form.active == "true";
  metadata = elim form.metadata [ none ↦ pr.metadata | some md ↦ some md ];
  nickname = elim form.nickname [ none ↦ pr.nickname | some n ↦ n ];
}

-- The POST branch of `handlePriceByID`; the fields are written before the key is claimed.
unfoldable pub update_price : String → PriceForm → Catalogue → Option PriceProblem × Catalogue
unfolding lookup insert claim_lookup_key
update_price id form st = elim (lookup id st.prices) [
  | none ↦ (some PriceProblem.no_such_price, st)
  | some pr ↦
      let edited = edit_price form pr in
      let prices = insert id edited st.prices in
      elim form.lookup_key [
        | none ↦ (none, record st { prices = prices })
        | some key ↦ elim (claim_lookup_key id edited key form.transfer prices) [
          | none ↦ (some PriceProblem.key_in_use, record st { prices = prices })
          | some (pr', prices') ↦ (none, record st { prices = insert id pr' prices' })
        ]
      ]
]

pub data PriceRequest : Type 0 where
  creates : StripePrice → Option StripeProduct → String → Bool → PriceRequest
  updates : String → PriceForm → PriceRequest

unfoldable pub run_prices : List PriceRequest → Catalogue → Catalogue
unfolding create_price update_price
run_prices [] st = st
run_prices (PriceRequest.creates pr inline key transfer ∷ rest) st =
    run_prices rest (create_price pr inline key transfer st).1
run_prices (PriceRequest.updates id form ∷ rest) st = run_prices rest (update_price id form st).1
