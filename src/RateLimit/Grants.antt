-- ===== src/RateLimit/Grants.antt =====
-- How many requests a window lets through, in a store without a maximum size.
use hamr.Base.{
  ℕ, suc, ◌+◌, ◌-◌, ◌^◌, ◌≤◌, ◌<◌, String, Bool, true, false, ◌&&◌, some, List, [], ◌∷◌, ◌≡◌, refl,
  sym, ap, ◌∙◌, ◌==◌, arith, eq_iff, inl, inr, Bool-cases, if◌then◌else◌,
}
use hamr.Base.Int.{ℤ, pos, ◌+ℤ◌, leb_ℤ, int_laws}
use hamr.Base.Int64.{add64, wrap64, wrap64_id}
use hamr.Base.Assoc.{Assoc, lookup, insert, contains, lookup-insert, lookup-insert_self}
use hamr.Base.Lists.{length}
use hamr.RateLimit.{Window, MemoryStore, touch, current, allow, is_expired}

-- One request.
pub record Hit : Type 0 where
  pub at : ℤ
  pub key : String
  pub rate : ℤ
  pub dur : ℤ

-- How many of the requests for `key` are allowed.
unfoldable pub grants : String → List Hit → MemoryStore → ℕ
grants key [] s = 0
grants key (x ∷ xs) s =
    let r = allow x.at x.key x.rate x.dur s in
    let later = grants key xs r.1 in if x.key == key && r.0.allowed then suc later else later

-- The requests for `key` have this rate, and come while a window that started at `start` is on.
abbrev pub Within : String → ℕ → ℤ → List Hit → Type 0
Within key rate start [] = Unit
Within key rate start (x ∷ xs) =
    (x.key ≡ key
      → (x.rate ≡ pos rate)
        × (is_expired x.at x.dur (record { count = pos 0; start = start }) ≡ false))
    × Within key rate start xs

contains-insert : (j : String) (w : Window) (ws : Assoc Window) → contains j (insert j w ws) ≡ true
unfolding contains
contains-insert j w ws = rw (lookup-insert_self j w ws, contains) refl

module _ (s : MemoryStore) (unlimited : leb_ℤ s.max_size (pos 0) ≡ true) (now : ℤ) (j : String)
    (rate dur : ℤ) where
  -- Without a maximum size the window of the key counts up, and no other window changes.
  lookup-allow :
      (key : String)
      → lookup key (allow now j rate dur s).1.windows ≡ (
          if j == key
          then some (record (current now dur (lookup j s.windows)) {
            count = add64 (current now dur (lookup j s.windows)).count (pos 1);
          })
          else lookup key s.windows)
  unfolding allow touch
  lookup-allow key =
      let w = current now dur (lookup j s.windows) in
      let w' : Window = record w { count = add64 w.count (pos 1) } in
      rw
        (
          unlimited,
          contains-insert j w s.windows,
          lookup-insert j key w' (insert j w s.windows),
          lookup-insert j key w s.windows,
        )
        (elim (Bool-cases (j == key)) [ inl y ↦ rw y refl | inr n ↦ rw n refl ])

  unlimited-allow : leb_ℤ (allow now j rate dur s).1.max_size (pos 0) ≡ true
  unfolding allow
  unlimited-allow = unlimited

add64_one : (n : ℕ) → suc n < 2 ^ 63 → add64 (pos n) (pos 1) ≡ pos (suc n)
add64_one n h =
    let e : pos n +ℤ pos 1 ≡ pos (suc n) = omega int_laws in
    ap wrap64 e ∙ wrap64_id (pos (suc n)) (ground arith)

-- A request in a window that is on.
allow-counts :
    (s : MemoryStore) (now : ℤ) (key : String) (rate dur start : ℤ) (used : ℕ)
    → leb_ℤ s.max_size (pos 0) ≡ true
    → lookup key s.windows ≡ some (record { count = pos used; start = start })
    → is_expired now dur (record { count = pos 0; start = start }) ≡ false
    → suc used < 2 ^ 63
    → (lookup key (allow now key rate dur s).1.windows
        ≡ some (record { count = pos (suc used); start = start }))
      × ((allow now key rate dur s).0.allowed ≡ leb_ℤ (pos (suc used)) rate)
unfolding allow current
allow-counts s now key rate dur start used unlimited held on small = (
  rw
      (
        lookup-allow s unlimited now key rate dur key,
        (eq_iff key key).1 refl,
        held,
        on,
        add64_one used small,
      )
      refl,
  rw (held, on, add64_one used small) refl,
)

count_up :
    (b : Bool) (n rate used : ℕ)
    → b ≡ leb_ℤ (pos (suc used)) (pos rate)
    → n ≤ rate - suc used
    → (if b then suc n else n) ≤ rate - used
count_up b n rate used told h = ground arith

-- The limiter lets no more than the rate through: in a store without a maximum size, while a
-- window of a key with `used` requests is on, any sequence of requests, of that key and of others,
-- has at most `rate - used` of the key's allowed, if fewer than 2^63 are counted.
pub grants-bounded :
    (key : String) (rate used : ℕ) (start : ℤ) (xs : List Hit) (s : MemoryStore)
    → leb_ℤ s.max_size (pos 0) ≡ true
    → lookup key s.windows ≡ some (record { count = pos used; start = start })
    → Within key rate start xs
    → used + length xs < 2 ^ 63
    → grants key xs s ≤ rate - used
unfolding grants
grants-bounded key rate used start [] s unlimited held within small = omega arith
grants-bounded key rate used start (x ∷ xs) s unlimited held within small =
    elim (Bool-cases (x.key == key)) [
      | inl y ↦
          let same = (eq_iff x.key key).0 y in
          let (r, on) = within.0 same in
          let held' : lookup x.key s.windows ≡ some (record { count = pos used; start = start }) =
            rw same held in
          let (next, answer) =
            allow-counts s x.at x.key x.rate x.dur start used unlimited held' on (omega arith) in
          let later =
            grants-bounded key rate (suc used) start xs (allow x.at x.key x.rate x.dur s).1
              (unlimited-allow s unlimited x.at x.key x.rate x.dur)
              (ap (λ k. lookup k (allow x.at x.key x.rate x.dur s).1.windows) (sym same) ∙ next)
              within.1 (omega arith) in
          rw y (
            count_up (allow x.at x.key x.rate x.dur s).0.allowed
              (grants key xs (allow x.at x.key x.rate x.dur s).1) rate used
              (answer ∙ ap (leb_ℤ (pos (suc used))) r) later)
      | inr n ↦
          let kept : lookup key (allow x.at x.key x.rate x.dur s).1.windows ≡ lookup key s.windows =
            rw (lookup-allow s unlimited x.at x.key x.rate x.dur key, n) refl in
          let later =
            grants-bounded key rate used start xs (allow x.at x.key x.rate x.dur s).1
              (unlimited-allow s unlimited x.at x.key x.rate x.dur) (kept ∙ held) within.1
              (omega arith) in
          rw n later
    ]
