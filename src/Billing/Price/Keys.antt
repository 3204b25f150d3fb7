-- ===== src/Billing/Price/Keys.antt =====
-- Which price holds a lookup key (internal/devserver/stripemock_price.go).
use hamr.Base.{
  String, Bool, not, ◌&&◌, Option, none, some, List, [], ◌∷◌, ◌==◌, ◌≡◌, ◌≢◌, ◌⊎◌, arith, inl, inr,
  Option-cases, Bool-cases, eq_iff, if◌then◌else◌,
}
use hamr.Base.Assoc.{Assoc, lookup, insert, lookup-insert}
use hamr.Billing.Price.{
  StripePrice, StripeProduct, Catalogue, PriceForm, release_key, claim_lookup_key, create_price,
  update_price, edit_price, without_key, product_known, PriceRequest, run_prices,
}

-- No two prices hold one key.
abbrev pub HasUniqueKeys : Assoc StripePrice → Type 0
HasUniqueKeys prices =
    (i j : String) (p q : StripePrice)
    → lookup i prices ≡ some p
    → lookup j prices ≡ some q
    → p.lookup_key ≡ q.lookup_key
    → p.lookup_key ≢ ""
    → i ≡ j

abbrev freed : String → String → String → StripePrice → StripePrice
freed id key j p = if not (j == id) && (p.lookup_key == key) then without_key p else p

abbrev freed_at : String → String → String → Option StripePrice → Option StripePrice
freed_at id key j none = none
freed_at id key j (some p) = some (freed id key j p)

-- What the loop leaves of each price.
release_key-lookup :
    (id key : String) (transfer : Bool) (prices left : Assoc StripePrice)
    → release_key id key transfer prices ≡ some left
    → (j : String) → lookup j left ≡ freed_at id key j (lookup j prices)
unfolding release_key lookup
release_key-lookup id key transfer [] left e j = ground arith
release_key-lookup id key transfer ((i, other) ∷ rest) left e j =
    elim (Option-cases (release_key id key transfer rest)) [
      | inl n ↦ absurd (ground arith)
      | inr (rest', g) ↦
          ground (arith, release_key-lookup id key transfer rest rest' g j, eq_iff i j)
    ]

-- Who holds a key once it is claimed.
claim-holder :
    (id key : String) (pr taken : StripePrice) (transfer : Bool) (prices left : Assoc StripePrice)
    → claim_lookup_key id pr key transfer prices ≡ some (taken, left)
    → (j : String) (q : StripePrice) → lookup j (insert id taken left) ≡ some q
    → q.lookup_key ≢ ""
    → ((j ≡ id) × (q.lookup_key ≡ key))
      ⊎ ((j ≢ id) × (lookup j prices ≡ some q) × (q.lookup_key ≢ key))
unfolding claim_lookup_key
claim-holder id key pr taken transfer prices left e j q f held =
    let there = lookup-insert id j taken left in
    elim (Bool-cases (key == "")) [
      | inl y ↦ ground (arith, there, eq_iff key "", eq_iff id j)
      | inr n ↦ elim (Option-cases (release_key id key transfer prices)) [
        | inl m ↦ absurd (ground arith)
        | inr (rest, g) ↦
            let spec = release_key-lookup id key transfer prices rest g j in
            elim (Option-cases (lookup j prices)) [
              | inl m ↦ ground (arith, there, spec, eq_iff id j, eq_iff j id)
              | inr (p, m) ↦
                  ground (arith, there, spec, eq_iff id j, eq_iff j id, eq_iff p.lookup_key key)
            ]
      ]
    ]

claim-HasUniqueKeys :
    (id key : String) (pr taken : StripePrice) (transfer : Bool) (prices left : Assoc StripePrice)
    → HasUniqueKeys prices
    → claim_lookup_key id pr key transfer prices ≡ some (taken, left)
    → HasUniqueKeys (insert id taken left)
claim-HasUniqueKeys id key pr taken transfer prices left unique e i j p q f g same held = ground (
  arith,
  claim-holder id key pr taken transfer prices left e i p f held,
  claim-holder id key pr taken transfer prices left e j q g,
  unique i j p q,
)

-- A price that is edited, its key left.
edited-HasUniqueKeys :
    (id : String) (form : PriceForm) (pr : StripePrice) (prices : Assoc StripePrice)
    → HasUniqueKeys prices
    → lookup id prices ≡ some pr
    → HasUniqueKeys (insert id (edit_price form pr) prices)
edited-HasUniqueKeys id form pr prices unique e i j p q f g same held =
    let edited = edit_price form pr in
    ground (
      arith,
      lookup-insert id i edited prices,
      lookup-insert id j edited prices,
      eq_iff id i,
      eq_iff id j,
      unique i j p q,
      unique i j pr q,
      unique i j p pr,
    )

create_price-HasUniqueKeys :
    (pr : StripePrice) (inline : Option StripeProduct) (key : String) (transfer : Bool)
    (st : Catalogue)
    → HasUniqueKeys st.prices
    → HasUniqueKeys (create_price pr inline key transfer st).1.prices
unfolding create_price
create_price-HasUniqueKeys pr inline key transfer st unique =
    elim (Bool-cases (product_known pr inline st)) [
      | inr n ↦ rw (n, create_price) unique
      | inl y ↦ elim (Option-cases (claim_lookup_key pr.id pr key transfer st.prices)) [
        | inl n ↦ rw (y, n, create_price) unique
        | inr ((taken, left), g) ↦
            rw (y, g, create_price)
              (claim-HasUniqueKeys pr.id key pr taken transfer st.prices left unique g)
      ]
    ]

update_price-HasUniqueKeys :
    (id : String) (form : PriceForm) (st : Catalogue)
    → HasUniqueKeys st.prices
    → HasUniqueKeys (update_price id form st).1.prices
unfolding update_price
update_price-HasUniqueKeys id form st unique = elim (Option-cases (lookup id st.prices)) [
  | inl n ↦ rw (n, update_price) unique
  | inr (pr, e) ↦
      let edited = edit_price form pr in
      let prices = insert id edited st.prices in
      let kept = edited-HasUniqueKeys id form pr st.prices unique e in
      elim (Option-cases form.lookup_key) [
        | inl n ↦ rw (e, n, update_price) kept
        | inr (key, f) ↦ elim (Option-cases (claim_lookup_key id edited key form.transfer prices)) [
          | inl n ↦ rw (e, f, n, update_price) kept
          | inr ((taken, left), g) ↦
              rw (e, f, g, update_price)
                (claim-HasUniqueKeys id key edited taken form.transfer prices left kept g)
        ]
      ]
]

-- Any sequence of requests that create and update prices, refused ones included: when no two prices
-- hold one lookup key (other than the empty one), no two do afterwards, whether keys are claimed,
-- moved from another price or given up.
pub run_prices-HasUniqueKeys :
    (requests : List PriceRequest) (st : Catalogue)
    → HasUniqueKeys st.prices
    → HasUniqueKeys (run_prices requests st).prices
unfolding run_prices
run_prices-HasUniqueKeys [] st unique = unique
run_prices-HasUniqueKeys (PriceRequest.creates pr inline key transfer ∷ rest) st unique =
    run_prices-HasUniqueKeys rest (create_price pr inline key transfer st).1
      (create_price-HasUniqueKeys pr inline key transfer st unique)
run_prices-HasUniqueKeys (PriceRequest.updates id form ∷ rest) st unique =
    run_prices-HasUniqueKeys rest (update_price id form st).1
      (update_price-HasUniqueKeys id form st unique)
