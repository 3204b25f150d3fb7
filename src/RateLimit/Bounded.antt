-- ===== src/RateLimit/Bounded.antt =====
-- A store with a maximum size never outgrows it: what eviction and the touch of a key keep.
pub mod Run
use hamr.Base.{
  ℕ, zero, suc, ◌+◌, ◌≤◌, ◌<◌, String, Bool, true, false, not, ◌||◌, Option, none, some, List, [],
  ◌∷◌, ◌++◌, ◌≡◌, refl, ◌==◌, arith, eq_iff, inl, inr, Bool-cases, Option-cases, if◌then◌else◌,
}
use hamr.Base.Int.{ℤ, pos, negsuc, leb_ℤ, ltb_ℤ}
use hamr.Base.Lists.{length, length-append}
use hamr.Base.Assoc.{Assoc, lookup, insert, erase, contains, lookup-insert, lookup-erase}
use hamr.RateLimit.{
  Window, MemoryStore, new_memory_store, in_elems, remove_key, evict, touch, current, allow,
  write_through, is_expired, expire, cleanup_expired, Call, allow_call, cleanup_call, after,
  after_all,
}

-- A Go map holds each key once.
abbrev pub Distinct : Assoc Window → Type 0
Distinct [] = Unit
Distinct ((k, _) ∷ ws) = (lookup k ws ≡ none) × Distinct ws

-- At most `n` keys are listed, and every window is of a listed key.
pub record IsBounded (n : ℕ) (s : MemoryStore) : Type 0 where
  pub capacity : s.max_size ≡ pos n
  pub size : length s.lru ≤ n
  pub distinct : Distinct s.windows
  pub listed : (k : String) (w : Window) → lookup k s.windows ≡ some w → in_elems k s.lru ≡ true

pub insert-Distinct :
    (k : String) (w : Window) (ws : Assoc Window) → Distinct ws → Distinct (insert k w ws)
unfolding insert lookup
insert-Distinct k w [] h = (refl, tt)
insert-Distinct k w ((j, v) ∷ ws) h =
    ground (arith, insert-Distinct k w ws h.1, lookup-insert k j w ws, eq_iff j k, eq_iff k j, h.0)

erase-Distinct : (k : String) (ws : Assoc Window) → Distinct ws → Distinct (erase k ws)
unfolding erase
erase-Distinct k [] h = tt
erase-Distinct k ((j, v) ∷ ws) h = ground (arith, erase-Distinct k ws h.1, lookup-erase k j ws, h.0)

evict-Distinct :
    (n : ℤ) (ks : List String) (ws : Assoc Window) → Distinct ws → Distinct (evict n ks ws).1
unfolding evict
evict-Distinct n [] ws h = h
evict-Distinct n (x ∷ ks) ws h =
    ground (arith, evict-Distinct n ks (erase x ws) (erase-Distinct x ws h), h)

pub touch-Distinct :
    (n : ℤ) (key : String) (ks : List String) (ws : Assoc Window)
    → Distinct ws
    → Distinct (touch n key ks ws).1
unfolding touch
touch-Distinct n key ks ws h = ground (arith, evict-Distinct n (ks ++ key ∷ []) ws h, h)

pub write_through-Distinct :
    (key : String) (w : Window) (ws : Assoc Window)
    → Distinct ws
    → Distinct (write_through key w ws)
write_through-Distinct key w ws h = ground (arith, insert-Distinct key w ws h, h)

in_elems-append :
    (k j : String) (ks : List String) → in_elems k (ks ++ j ∷ []) ≡ (in_elems k ks || j == k)
unfolding in_elems
in_elems-append k j [] = ground arith
in_elems-append k j (x ∷ ks) = ground (arith, in_elems-append k j ks)

-- Moving a key to the back keeps the members and the length.
in_elems-move :
    (k j : String) (ks : List String)
    → in_elems k ks ≡ true
    → in_elems k (remove_key j ks ++ j ∷ []) ≡ true
unfolding in_elems remove_key
in_elems-move k j [] h = ground arith
in_elems-move k j (x ∷ ks) h =
    ground (arith, in_elems-move k j ks, in_elems-append k j ks, eq_iff x j, eq_iff x k, eq_iff j k)

length-remove_key :
    (j : String) (ks : List String)
    → in_elems j ks ≡ true
    → suc (length (remove_key j ks)) ≡ length ks
unfolding in_elems remove_key
length-remove_key j [] h = absurd (ground arith)
length-remove_key j (x ∷ ks) h = ground (arith, length-remove_key j ks)

-- Eviction leaves at most the maximum, and windows of listed keys only.
length-evict : (n : ℕ) (ks : List String) (ws : Assoc Window) → length (evict (pos n) ks ws).0 ≤ n
unfolding evict
length-evict n [] ws = omega arith
length-evict n (x ∷ ks) ws = ground (arith, length-evict n ks (erase x ws))

listed-evict :
    (n : ℕ) (ks : List String) (ws : Assoc Window)
    → ((k : String) (w : Window) → lookup k ws ≡ some w → in_elems k ks ≡ true)
    → (k : String) (w : Window) → lookup k (evict (pos n) ks ws).1 ≡ some w
    → in_elems k (evict (pos n) ks ws).0 ≡ true
unfolding evict in_elems
listed-evict n [] ws h k w e = h k w e
listed-evict n (x ∷ ks) ws h k w e = elim (Bool-cases (ltb_ℤ (pos n) (pos (length (x ∷ ks))))) [
  | inl over ↦ rw over (
      listed-evict n ks (erase x ws) (λ j v f. ground (arith, f, lookup-erase x j ws, h j v)) k w
        (rw over at e))
  | inr fits ↦ rw fits (h k w (rw fits at e))
]

module _ (n : ℕ) (key : String) (ks : List String) where
  pub length-touch :
      (ws : Assoc Window) → suc zero ≤ n → length ks ≤ n → length (touch (pos n) key ks ws).0 ≤ n
  unfolding touch
  length-touch ws some_room fits = elim (Bool-cases (in_elems key ks)) [
    | inl there ↦
        rw there ground
          (arith, there, length-append (remove_key key ks) (key ∷ []), length-remove_key key ks)
    | inr new ↦ rw new ground (arith, new, length-evict n (ks ++ key ∷ []) ws)
  ]

  enters :
      (ws : Assoc Window) (w' : Window)
      → suc zero ≤ n
      → in_elems key ks ≡ false
      → touch (pos n) key ks (insert key w' ws) ≡ evict (pos n) (ks ++ key ∷ []) (insert key w' ws)
  unfolding touch
  enters ws w' some_room new = ground (arith, new)

  moved_back :
      (ws : Assoc Window) (w' : Window)
      → suc zero ≤ n
      → in_elems key ks ≡ true
      → ((k : String) (w : Window) → lookup k ws ≡ some w → in_elems k ks ≡ true)
      → (k : String) (w : Window) → lookup k (touch (pos n) key ks (insert key w' ws)).1 ≡ some w
      → in_elems k (touch (pos n) key ks (insert key w' ws)).0 ≡ true
  unfolding touch
  moved_back ws w' some_room there h k w e =
      ground
        (arith, there, e, lookup-insert key k w' ws, eq_iff key k, h k w, in_elems-move k key ks)

  pub listed-touch :
      (ws : Assoc Window) (w' : Window)
      → suc zero ≤ n
      → ((k : String) (w : Window) → lookup k ws ≡ some w → in_elems k ks ≡ true)
      → (k : String) (w : Window) → lookup k (touch (pos n) key ks (insert key w' ws)).1 ≡ some w
      → in_elems k (touch (pos n) key ks (insert key w' ws)).0 ≡ true
  unfolding touch
  listed-touch ws w' some_room h k w e = elim (Bool-cases (in_elems key ks)) [
    | inl there ↦ moved_back ws w' some_room there h k w e
    | inr new ↦ rw (enters ws w' some_room new) (
        listed-evict n (ks ++ key ∷ []) (insert key w' ws)
          (λ j v f.
            ground
              (arith, f, lookup-insert key j w' ws, eq_iff key j, h j v, in_elems-append j key ks))
          k w (rw (enters ws w' some_room new) at e))
  ]

pub lookup-write_through :
    (key k : String) (w v : Window) (ws : Assoc Window)
    → lookup k (write_through key w ws) ≡ some v
    → (u : Window) × (lookup k ws ≡ some u)
unfolding contains
lookup-write_through key k w v ws e = elim (Option-cases (lookup key ws)) [
  | inl gone ↦ (v, ground (arith, gone, e))
  | inr (u, held) ↦ elim (Bool-cases (key == k)) [
    | inl y ↦ (u, rw (← (eq_iff key k).0 y) held)
    | inr other ↦ (v, ground (arith, held, e, lookup-insert key k w ws, other))
  ]
]
