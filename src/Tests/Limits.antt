-- ===== src/Tests/Limits.antt =====
-- Tests of the rate limiter.
use hamr.Base.{◌-◌, ◌≤◌, List, [], ◌∷◌, refl, arith, eq_iff}
use hamr.Base.Int.{pos, ◌-ℤ◌}
use hamr.Base.Assoc.{lookup}
use hamr.RateLimit.{MemoryStore, new_memory_store, Call, allow_call, cleanup_call, after_all}
use hamr.RateLimit.Bounded.{IsBounded}
use hamr.RateLimit.Bounded.Run.{after_all-IsBounded}
use hamr.RateLimit.Grants.{Hit, Within, grants, grants-bounded}

abbrev pub calls : List Call
calls =
    allow_call (pos 0) "a" (pos 5) (pos 60)
    ∷ allow_call (pos 1) "b" (pos 5) (pos 60)
    ∷ cleanup_call (pos 61) (pos 60)
    ∷ []

one_room : IsBounded 1 (new_memory_store (pos 1))
unfolding lookup
one_room = record {
  capacity = refl;
  size = omega arith;
  distinct = tt;
  listed = λ k w e. absurd (ground arith);
}

after_all-IsBounded_example : IsBounded 1 (after_all calls (new_memory_store (pos 1)))
after_all-IsBounded_example =
    after_all-IsBounded 1 calls (new_memory_store (pos 1)) (omega arith) one_room

abbrev pub one_used : MemoryStore
one_used = record {
  windows = ("a", record { count = pos 1; start = pos 0 }) ∷ [];
  lru = [];
  max_size = pos 0;
}

abbrev pub hits : List Hit
hits =
    record { at = pos 10; key = "a"; rate = pos 2; dur = pos 60 }
    ∷ record { at = pos 20; key = "b"; rate = pos 1; dur = pos 60 }
    ∷ record { at = pos 30; key = "a"; rate = pos 2; dur = pos 60 }
    ∷ []

hits-Within : Within "a" 2 (pos 0) hits
unfolding ◌-ℤ◌
hits-Within =
    (λ e. (refl, refl), (λ e. absurd (ground (arith, eq_iff "b" "a")), (λ e. (refl, refl), tt)))

grants-bounded_example : grants "a" hits one_used ≤ 2 - 1
unfolding lookup ◌-ℤ◌
grants-bounded_example =
    grants-bounded "a" 2 1 (pos 0) hits one_used refl refl hits-Within (omega arith)
