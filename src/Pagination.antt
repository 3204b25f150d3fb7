-- ===== src/Pagination.antt =====
-- Page metadata (pkg/respond/pagination.go).
use hamr.Base.{
  ℕ, suc, ◌+◌, ◌-◌, ◌*◌, ◌/◌, ◌^◌, ◌≤◌, ◌<◌, Bool, true, false, ◌≡◌, ◌↔◌, refl, ap, ◌∙◌, arith,
  if◌then◌else◌,
}
use hamr.Base.Int.{◌≤ℤ◌, ℤ, pos, ltb_ℤ, leb_ℤ, quot, ◌+ℤ◌, ◌-ℤ◌, int_laws}
use hamr.Base.Int64.{add64, sub64, div64, wrap64, wrap64_id}
use native.Mathlib.Nat.{le-div_iff_mul-le, div-le_self}

pub record Page : Type 0 where
  pub number : ℤ
  pub size : ℤ
  pub total : ℤ
  pub total_pages : ℤ
  pub has_next : Bool
  pub has_prev : Bool

-- The arguments are what `strconv.Atoi` leaves of the two query parameters, 0 where it fails.
unfoldable pub parse_pagination : ℤ → ℤ → ℤ → ℤ × ℤ
parse_pagination page_param size_param default_size =
    let size = if ltb_ℤ size_param (pos 1) then default_size else size_param in
    (
      if ltb_ℤ page_param (pos 1) then pos 1 else page_param,
      if ltb_ℤ (pos 100) size then pos 100 else size,
    )

unfoldable pub new_page : ℤ → ℤ → ℤ → Page
new_page page size total =
    let total_pages = div64 (sub64 (add64 total size) (pos 1)) size in
    if leb_ℤ size (pos 0)
    then record {
      number = page;
      size = size;
      total = total;
      total_pages = pos 0;
      has_next = false;
      has_prev = false;
    }
    else record {
      number = page;
      size = size;
      total = total;
      total_pages = total_pages;
      has_next = ltb_ℤ page total_pages;
      has_prev = ltb_ℤ (pos 1) page;
    }

-- Within int64 the count of pages is the rounded-up quotient.
new_page-pages :
    (page size total : ℕ)
    → 1 ≤ size
    → total + size < 2 ^ 63
    → (new_page (pos page) (pos size) (pos total)).total_pages ≡ pos ((total + size - 1) / size)
unfolding new_page quot
new_page-pages page size total h small =
    let sum : add64 (pos total) (pos size) ≡ pos (total + size) =
      let e : pos total +ℤ pos size ≡ pos (total + size) = omega int_laws in
      ap wrap64 e ∙ wrap64_id (pos (total + size)) (ground arith) in
    let less : sub64 (pos (total + size)) (pos 1) ≡ pos (total + size - 1) =
      let e : pos (total + size) -ℤ pos 1 ≡ pos (total + size - 1) = omega int_laws in
      ap wrap64 e ∙ wrap64_id (pos (total + size - 1)) (ground arith) in
    let small' : (total + size - 1) / size < 2 ^ 63 =
      omega (arith, div-le_self (total + size - 1) size) in
    let positive : leb_ℤ (pos size) (pos 0) ≡ false = ground arith in
    rw (positive, sum, less) (wrap64_id (pos ((total + size - 1) / size)) (ground (arith, small')))

-- Page `k` + 1 exists exactly when something stands after the first `k` pages.
pages_iff : (k size total : ℕ) → 1 ≤ size → (suc k ≤ (total + size - 1) / size) ↔ (k * size < total)
pages_iff k size total h =
    let (to, from) = le-div_iff_mul-le {x = suc k} {y = total + size - 1} (omega (arith, h)) in
    (λ lt. omega (arith, to lt), λ lt. from (omega (arith, lt)))

below :
    (k size total : ℕ)
    → 1 ≤ size
    → (ltb_ℤ (pos k) (pos ((total + size - 1) / size)) ≡ true) ↔ (k * size < total)
below k size total h = ground (arith, pages_iff k size total h)

new_page-next :
    (page size total : ℕ)
    → 1 ≤ size
    → (new_page (pos page) (pos size) (pos total)).has_next
      ≡ ltb_ℤ (pos page) (new_page (pos page) (pos size) (pos total)).total_pages
unfolding new_page
new_page-next page size total h =
    let positive : leb_ℤ (pos size) (pos 0) ≡ false = ground arith in rw positive refl

-- Pages cover the items: with a positive size, and a total and size that together fit int64, there
-- is a page `k` + 1 exactly when more than `k * size` items exist, and a page has a next one
-- exactly when items are left after it.
pub new_page-covers :
    (page size total k : ℕ)
    → 1 ≤ size
    → total + size < 2 ^ 63
    → ((ltb_ℤ (pos k) (new_page (pos page) (pos size) (pos total)).total_pages ≡ true)
        ↔ (k * size < total))
      × (((new_page (pos page) (pos size) (pos total)).has_next ≡ true) ↔ (page * size < total))
new_page-covers page size total k h small = (
  rw (new_page-pages page size total h small) (below k size total h),
  rw (new_page-next page size total h, new_page-pages page size total h small)
      (below page size total h),
)

-- The parameters of a request are clamped: if the default size is positive, the page is at least 1
-- and the size lies between 1 and 100, whatever the query says.
pub parse_pagination-bounds :
    (page_param size_param default_size : ℤ)
    → pos 1 ≤ℤ default_size
    → (pos 1 ≤ℤ (parse_pagination page_param size_param default_size).0)
      × (pos 1 ≤ℤ (parse_pagination page_param size_param default_size).1)
      × ((parse_pagination page_param size_param default_size).1 ≤ℤ pos 100)
unfolding parse_pagination
parse_pagination-bounds page_param size_param default_size h = ground arith
