-- ===== src/Billing/Calendar.antt =====
-- The ends of billing periods (`periodEnd` and `addMonthsClamped`) and their order.
use hamr.Base.{
  ℕ, zero, suc, ◌+◌, ◌-◌, ◌*◌, ◌≤◌, ◌<◌, ◌^◌, Option, none, some, [], ◌∷◌, ◌==◌, ◌≡◌, arith, ltb,
  if◌then◌else◌, Bool-cases, inl, inr, ap, ltb→lt, ◌∙◌, ◌||◌,
}
use hamr.Base.Int.{ℤ, pos, sub_ℕ, ◌*ℤ◌}
use hamr.Base.Int64.{mul64, wrap64, wrap64_id}
use hamr.Billing.{Outside, StripeSubscription, StripeSubscriptionItem}

-- `min(d, last) - 1` days after the first of the month.
unfoldable pub add_months_clamped : Outside → ℕ → ℤ → ℕ
add_months_clamped o t months =
    let first = o.first_of_month t months in
    let last = o.month_days first in
    let d = o.day_of_month t in o.add_days first (sub_ℕ (if ltb last d then last else d) 1)

unfoldable pub period_of : Outside → StripeSubscriptionItem → ℕ → ℕ → ℕ
unfolding add_months_clamped
period_of o it anchor n =
    let count = mul64 it.interval_count (pos (suc n)) in
    if it.interval == "day"
    then o.add_days anchor count
    else if it.interval == "week"
    then o.add_days anchor (mul64 (pos 7) count)
    else if it.interval == "year"
    then add_months_clamped o anchor (mul64 (pos 12) count)
    else add_months_clamped o anchor count

-- `s.Items[0]` panics when there is no item.
unfoldable pub period_end : Outside → StripeSubscription → ℕ → Option ℕ
unfolding period_of
period_end o s n = elim s.items [
  | [] ↦ none
  | it ∷ _ ↦ some (period_of o it s.billing_cycle_anchor n)
]

-- What `time` documents of these: days and months that are added go forward, by a second or more for
-- each, and no day of a month, counted from 1, reaches the first of the next month.
pub record IsCalendar (o : Outside) : Type 0 where
  pub days_start : (t : ℕ) → t ≤ o.add_days t (pos 0)
  pub days_forward : (t n : ℕ) → o.add_days t (pos n) < o.add_days t (pos (suc n))
  pub month_ahead : (t : ℕ) → t < o.first_of_month t (pos 1)
  pub in_month :
      (t n d : ℕ)
      → d < o.month_days (o.first_of_month t (pos n))
      → o.add_days (o.first_of_month t (pos n)) (pos d) < o.first_of_month t (pos (suc n))
  pub days_positive : (t : ℕ) → (1 ≤ o.day_of_month t) × 1 ≤ o.month_days t

-- A function that grows at each step grows.
growing : (f : ℕ → ℕ) → ((n : ℕ) → f n < f (suc n)) → (m n : ℕ) → m < n → f m < f n
growing f up m zero lt = absurd (omega (arith, lt))
growing f up m (suc n) lt = elim (Bool-cases (ltb m n)) [
  | inl y ↦ let earlier : m < n = ltb→lt m n y in omega (arith, growing f up m n earlier, up n)
  | inr k ↦ let same : m ≡ n = ground arith in omega (arith, up n, ap f same)
]

mul64_pos : (a b : ℕ) → a * b < 2 ^ 63 → mul64 (pos a) (pos b) ≡ pos (a * b)
unfolding ◌*ℤ◌
mul64_pos a b h =
    let e : pos a *ℤ pos b ≡ pos (a * b) = ground arith in
    ap wrap64 e ∙ wrap64_id (pos (a * b)) (omega (arith, h))

mul64_twice :
    (k c n : ℕ)
    → k * (c * n) < 2 ^ 63
    → c * n < 2 ^ 63
    → mul64 (pos k) (mul64 (pos c) (pos n)) ≡ pos (k * (c * n))
mul64_twice k c n h g = ap (mul64 (pos k)) (mul64_pos c n g) ∙ mul64_pos k (c * n) h

times : (c n : ℕ) → 1 ≤ c → (c * n < c * suc n) × n ≤ c * n
times c n h = grind arith

-- The interval count is 1 or more, and that of `n` periods fits an int even in months of years.
abbrev pub Fits : StripeSubscriptionItem → ℕ → Type 0
Fits it n = (c : ℕ) × (it.interval_count ≡ pos c) × (1 ≤ c) × 12 * (c * n) < 2 ^ 63

module _ (o : Outside) (cal : IsCalendar o) where
  add_days-later : (t n : ℕ) → t + n ≤ o.add_days t (pos n)
  add_days-later t zero = omega (arith, cal.days_start t)
  add_days-later t (suc n) = omega (arith, add_days-later t n, cal.days_forward t n)

  -- A clamped month stays in its month.
  clamped_bounds :
      (t n : ℕ)
      → (o.first_of_month t (pos n) ≤ add_months_clamped o t (pos n))
        × add_months_clamped o t (pos n) < o.first_of_month t (pos (suc n))
  unfolding add_months_clamped
  clamped_bounds t n =
      let first = o.first_of_month t (pos n) in
      let d = o.day_of_month t in
      let last = o.month_days first in
      ground (
        arith,
        cal.days_positive t,
        cal.days_positive first,
        add_days-later first (d - 1),
        add_days-later first (last - 1),
        cal.in_month t n (d - 1),
        cal.in_month t n (last - 1),
      )

  first_later : (t n : ℕ) → t + suc n ≤ o.first_of_month t (pos (suc n))
  first_later t zero = omega (arith, cal.month_ahead t)
  first_later t (suc n) = omega (arith, first_later t n, clamped_bounds t (suc n))

  clamped_forward :
      (t n : ℕ) → add_months_clamped o t (pos n) < add_months_clamped o t (pos (suc n))
  clamped_forward t n = omega (arith, clamped_bounds t n, clamped_bounds t (suc n))

  clamped_later : (t n : ℕ) → 1 ≤ n → t + n ≤ add_months_clamped o t (pos n)
  clamped_later t zero h = absurd (omega (arith, h))
  clamped_later t (suc n) h = omega (arith, first_later t n, clamped_bounds t (suc n))

  -- How far the period numbered n leads, by its kind of interval.
  span : StripeSubscriptionItem → ℕ → ℕ → ℕ
  span it c n =
      if it.interval == "day"
      then c * n
      else if it.interval == "week"
      then 7 * (c * n)
      else if it.interval == "year"
      then 12 * (c * n)
      else c * n

  reach : StripeSubscriptionItem → ℕ → ℕ → ℕ
  reach it t n =
      if it.interval == "day" || it.interval == "week"
      then o.add_days t (pos n)
      else add_months_clamped o t (pos n)

  period_of-reach :
      (it : StripeSubscriptionItem) (t n c : ℕ)
      → it.interval_count ≡ pos c
      → 12 * (c * suc n) < 2 ^ 63
      → period_of o it t n ≡ reach it t (span it c (suc n))
  unfolding period_of reach span
  period_of-reach it t n c e h =
      let plain : mul64 (pos c) (pos (suc n)) ≡ pos (c * suc n) =
        mul64_pos c (suc n) (omega (arith, h)) in
      let weeks = mul64_twice 7 c (suc n) (omega (arith, h)) (omega (arith, h)) in
      let years = mul64_twice 12 c (suc n) (omega (arith, h)) (omega (arith, h)) in
      ground (arith, e, plain, weeks, years)

  reach_grows : (it : StripeSubscriptionItem) (t m n : ℕ) → m < n → reach it t m < reach it t n
  unfolding reach
  reach_grows it t m n lt = ground (
    arith,
    growing (λ k. o.add_days t (pos k)) (cal.days_forward t) m n lt,
    growing (λ k. add_months_clamped o t (pos k)) (clamped_forward t) m n lt,
  )

  reach_later : (it : StripeSubscriptionItem) (t n : ℕ) → 1 ≤ n → t + n ≤ reach it t n
  unfolding reach
  reach_later it t n h = ground (arith, add_days-later t n, clamped_later t n)

  span_grows :
      (it : StripeSubscriptionItem) (c n : ℕ)
      → 1 ≤ c
      → (span it c n < span it c (suc n)) × n ≤ span it c n
  unfolding span
  span_grows it c n pos_c = ground (arith, times c n pos_c)

  -- On a calendar that goes forward, and for an interval count of 1 or more whose periods up to the
  -- number n + 2 fit an int: the period after number n ends later than it, and period number n ends
  -- n + 1 seconds or more after the anchor.
  pub period_of-forward :
      (it : StripeSubscriptionItem) (t n : ℕ)
      → Fits it (suc (suc n))
      → (period_of o it t n < period_of o it t (suc n)) × t + suc n ≤ period_of o it t n
  period_of-forward it t n (c, e, pos_c, h) =
      let here : period_of o it t n ≡ reach it t (span it c (suc n)) =
        period_of-reach it t n c e (omega (arith, h)) in
      let next : period_of o it t (suc n) ≡ reach it t (span it c (suc (suc n))) =
        period_of-reach it t (suc n) c e (omega (arith, h)) in
      let grows = span_grows it c (suc n) pos_c in
      (
        omega (
          arith,
          here,
          next,
          reach_grows it t (span it c (suc n)) (span it c (suc (suc n))) grows.0,
        ),
        omega (arith, here, reach_later it t (span it c (suc n)) (omega (arith, grows.1)), grows.1),
      )
