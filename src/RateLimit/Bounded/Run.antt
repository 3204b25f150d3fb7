-- ===== src/RateLimit/Bounded/Run.antt =====
-- A store with a maximum size never outgrows it, along any sequence of calls.
use hamr.Base.{
  ℕ, zero, suc, ◌≤◌, String, true, none, some, List, [], ◌∷◌, ◌≡◌, ◌≢◌, refl, arith, eq_iff,
}
use hamr.Base.Int.{ℤ}
use hamr.Base.Lists.{length}
use hamr.Base.Assoc.{Assoc, lookup, insert}
use hamr.RateLimit.{
  Window, MemoryStore, in_elems, remove_key, touch, current, allow, expire, cleanup_expired, Call,
  allow_call, cleanup_call, after, after_all,
}
use hamr.RateLimit.Bounded.{
  IsBounded, Distinct, length-touch, listed-touch, lookup-write_through, insert-Distinct,
  touch-Distinct, write_through-Distinct,
}

-- What is left after the loop: no more keys than before, and windows of listed keys only.
length-remove_key_le : (j : String) (ks : List String) → length (remove_key j ks) ≤ length ks
unfolding remove_key
length-remove_key_le j [] = omega arith
length-remove_key_le j (x ∷ ks) = ground (arith, length-remove_key_le j ks)

length-expire :
    (now dur : ℤ) (ws : Assoc Window) (ks : List String)
    → length (expire now dur ws ks).1 ≤ length ks
unfolding expire
length-expire now dur [] ks = omega arith
length-expire now dur ((key, w) ∷ ws) ks = ground (
  arith,
  length-expire now dur ws ks,
  length-expire now dur ws (remove_key key ks),
  length-remove_key_le key ks,
)

in_elems-remove_ne :
    (j k : String) (ks : List String)
    → j ≢ k
    → in_elems k ks ≡ true
    → in_elems k (remove_key j ks) ≡ true
unfolding in_elems remove_key
in_elems-remove_ne j k [] ne h = ground arith
in_elems-remove_ne j k (x ∷ ks) ne h =
    ground (arith, in_elems-remove_ne j k ks ne, eq_iff x j, eq_iff x k)

module _ (now dur : ℤ) where
  lookup-expire-none :
      (k : String) (ws : Assoc Window) (ks : List String)
      → lookup k ws ≡ none
      → lookup k (expire now dur ws ks).0 ≡ none
  unfolding expire lookup
  lookup-expire-none k [] ks e = refl
  lookup-expire-none k ((j, v) ∷ ws) ks e =
      ground (arith, e, lookup-expire-none k ws ks, lookup-expire-none k ws (remove_key j ks))

  expire-Distinct :
      (ws : Assoc Window) (ks : List String) → Distinct ws → Distinct (expire now dur ws ks).0
  unfolding expire
  expire-Distinct [] ks h = tt
  expire-Distinct ((j, v) ∷ ws) ks h = ground (
    arith,
    expire-Distinct ws ks h.1,
    expire-Distinct ws (remove_key j ks) h.1,
    lookup-expire-none j ws ks h.0,
  )

  -- A key without a window stays listed.
  in_elems-expire :
      (k : String) (ws : Assoc Window) (ks : List String)
      → lookup k ws ≡ none
      → in_elems k ks ≡ true
      → in_elems k (expire now dur ws ks).1 ≡ true
  unfolding expire lookup
  in_elems-expire k [] ks e h = h
  in_elems-expire k ((j, v) ∷ ws) ks e h = ground (
    arith,
    e,
    h,
    eq_iff j k,
    in_elems-expire k ws ks,
    in_elems-expire k ws (remove_key j ks),
    in_elems-remove_ne j k ks,
  )

  listed-expire :
      (ws : Assoc Window) (ks : List String)
      → Distinct ws
      → ((k : String) (w : Window) → lookup k ws ≡ some w → in_elems k ks ≡ true)
      → (k : String) (w : Window) → lookup k (expire now dur ws ks).0 ≡ some w
      → in_elems k (expire now dur ws ks).1 ≡ true
  unfolding expire lookup
  listed-expire [] ks d h k w e = absurd (ground arith)
  listed-expire ((j, v) ∷ ws) ks d h k w e =
      let later : (i : String) (u : Window) → lookup i ws ≡ some u → j ≢ i =
        λ i u f. ground (arith, f, d.0) in
      let listed : (i : String) (u : Window) → lookup i ws ≡ some u → in_elems i ks ≡ true =
        λ i u f. ground (arith, f, later i u f, eq_iff j i, h i u) in
      let dropped =
        listed-expire ws (remove_key j ks) d.1
          (λ i u f. in_elems-remove_ne j i ks (later i u f) (listed i u f)) k w in
      let kept = listed-expire ws ks d.1 listed k w in
      ground (arith, e, dropped, kept, eq_iff j k, h j v, eq_iff j j, in_elems-expire j ws ks d.0)

module _ (n : ℕ) (s : MemoryStore) (some_room : suc zero ≤ n) (h : IsBounded n s) where
  allow-IsBounded :
      (now : ℤ) (key : String) (rate dur : ℤ) → IsBounded n (allow now key rate dur s).1
  unfolding allow
  allow-IsBounded now key rate dur =
      let w' = current now dur (lookup key s.windows) in
      record {
        capacity = h.capacity;
        size = rw h.capacity (length-touch n key s.lru (insert key w' s.windows) some_room h.size);
        distinct = write_through-Distinct key _ _ (
            touch-Distinct s.max_size key s.lru (insert key w' s.windows)
              (insert-Distinct key w' s.windows h.distinct));
        listed = λ k w e.
            let (u, there) =
              lookup-write_through key k _ w
                (touch s.max_size key s.lru (insert key w' s.windows)).1 e in
            rw h.capacity (
              listed-touch n key s.lru s.windows w' some_room h.listed k u
                (rw h.capacity at there));
      }

  cleanup_expired-IsBounded : (now dur : ℤ) → IsBounded n (cleanup_expired now dur s)
  unfolding cleanup_expired
  cleanup_expired-IsBounded now dur = record {
    capacity = h.capacity;
    size = omega (arith, h.size, length-expire now dur s.windows s.lru);
    distinct = expire-Distinct now dur s.windows s.lru h.distinct;
    listed = listed-expire now dur s.windows s.lru h.distinct h.listed;
  }

-- A store with a positive maximum size stays bounded through any sequence of calls and
-- clean-ups: it lists at most that many keys, and holds windows for listed keys only, so
-- neither the list nor the map grows past the maximum.
pub after_all-IsBounded :
    (n : ℕ) (calls : List Call) (s : MemoryStore)
    → suc zero ≤ n
    → IsBounded n s
    → IsBounded n (after_all calls s)
unfolding after_all after
after_all-IsBounded n [] s some_room h = h
after_all-IsBounded n (allow_call now key rate dur ∷ calls) s some_room h =
    after_all-IsBounded n calls _ some_room (allow-IsBounded n s some_room h now key rate dur)
after_all-IsBounded n (cleanup_call now dur ∷ calls) s some_room h =
    after_all-IsBounded n calls _ some_room (cleanup_expired-IsBounded n s some_room h now dur)
