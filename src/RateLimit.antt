-- ===== src/RateLimit.antt =====
-- The in-memory rate limiter and the decision of its middleware (pkg/middleware/ratelimit.go).
-- Times are integers of nanoseconds; `time.Now` is an argument of the operations.
pub mod Bounded
pub mod Grants
use hamr.Base.{
  ℕ, suc, ◌+◌, String, Bool, true, false, not, ◌||◌, Option, none, some, List, [], ◌∷◌, ◌++◌, ◌==◌,
  if◌then◌else◌,
}
use hamr.Base.Int.{ℤ, pos, ◌+ℤ◌, ◌-ℤ◌, leb_ℤ, ltb_ℤ, max_ℤ}
use hamr.Base.Int64.{add64, sub64}
use hamr.Base.Lists.{length}
use hamr.Base.Assoc.{Assoc, lookup, insert, erase, contains}

pub record Window : Type 0 where
  pub count : ℤ
  pub start : ℤ

-- `lru` holds the keys, the least recently active first; `elems` is the index of its elements by
-- key, so a key is in `elems` when it is a member of `lru`.
pub record MemoryStore : Type 0 where
  pub windows : Assoc Window
  pub lru : List String
  pub max_size : ℤ

abbrev pub new_memory_store : ℤ → MemoryStore
new_memory_store max_size = record { windows = []; lru = []; max_size = max_size }

-- `_, ok := s.elems[key]`
unfoldable pub in_elems : String → List String → Bool
in_elems key [] = false
in_elems key (k ∷ ks) = k == key || in_elems key ks

-- Takes the element of `key` out of the list.
unfoldable pub remove_key : String → List String → List String
remove_key key [] = []
remove_key key (k ∷ ks) = let rest = remove_key key ks in if k == key then ks else k ∷ rest

-- The loop that evicts from the front while the list is longer than the maximum.
unfoldable pub evict : ℤ → List String → Assoc Window → List String × Assoc Window
evict max_size [] ws = ([], ws)
evict max_size (front ∷ ks) ws =
    let rest = evict max_size ks (erase front ws) in
    if ltb_ℤ max_size (pos (length (front ∷ ks))) then rest else (front ∷ ks, ws)

-- Marks `key` as the most recently active, and evicts over the capacity.
unfoldable pub touch : ℤ → String → List String → Assoc Window → List String × Assoc Window
unfolding in_elems remove_key evict
touch max_size key ks ws =
    if leb_ℤ max_size (pos 0)
    then (ks, ws)
    else if in_elems key ks
    then (remove_key key ks ++ key ∷ [], ws)
    else evict max_size (ks ++ key ∷ []) ws

abbrev pub is_expired : ℤ → ℤ → Window → Bool
is_expired now dur w = leb_ℤ dur (now -ℤ w.start)

-- The window of `key` at `now`: the stored one, or a new one if there is none or it is over.
unfoldable pub current : ℤ → ℤ → Option Window → Window
current now dur none = record { count = pos 0; start = now }
current now dur (some w) = if is_expired now dur w then record { count = pos 0; start = now } else w

pub record Allowed : Type 0 where
  pub allowed : Bool
  pub remaining : ℤ
  pub reset_at : ℤ

-- `w.count++` through the pointer: it shows in the map while the map holds the window.
abbrev pub write_through : String → Window → Assoc Window → Assoc Window
write_through key w ws = if contains key ws then insert key w ws else ws

unfoldable pub allow : ℤ → String → ℤ → ℤ → MemoryStore → Allowed × MemoryStore
unfolding touch current contains lookup
allow now key rate dur s =
    let w = current now dur (lookup key s.windows) in
    let touched = touch s.max_size key s.lru (insert key w s.windows) in
    let w' = record w { count = add64 w.count (pos 1) } in
    (
      record {
        allowed = leb_ℤ w'.count rate;
        remaining = max_ℤ (sub64 rate w'.count) (pos 0);
        reset_at = w'.start +ℤ dur;
      },
      record s { windows = write_through key w' touched.1; lru = touched.0 },
    )

-- The loop over the windows: every one that is over goes, from the map and from the list.
unfoldable pub expire : ℤ → ℤ → Assoc Window → List String → Assoc Window × List String
unfolding remove_key
expire now dur [] ks = ([], ks)
expire now dur ((key, w) ∷ ws) ks =
    let dropped = expire now dur ws (remove_key key ks) in
    let kept = expire now dur ws ks in
    if is_expired now dur w then dropped else ((key, w) ∷ kept.0, kept.1)

unfoldable pub cleanup_expired : ℤ → ℤ → MemoryStore → MemoryStore
unfolding expire
cleanup_expired now dur s =
    let left = expire now dur s.windows s.lru in record s { windows = left.0; lru = left.1 }

-- A call of the store: a request's `Allow`, or `CleanupExpired` by the background loop.
pub data Call : Type 0 where
  allow_call : ℤ → String → ℤ → ℤ → Call
  cleanup_call : ℤ → ℤ → Call

unfoldable pub after : Call → MemoryStore → MemoryStore
unfolding allow cleanup_expired
after (allow_call now key rate dur) s = (allow now key rate dur s).1
after (cleanup_call now dur) s = cleanup_expired now dur s

unfoldable pub after_all : List Call → MemoryStore → MemoryStore
unfolding after
after_all [] s = s
after_all (c ∷ cs) s = after_all cs (after c s)

-- What the middleware does with a request.
pub data Decision : Type 0 where
  next : Decision
  http_error : ℕ → Decision

pub record RateLimitConfig : Type 0 where
  pub rate : ℤ
  pub burst : ℤ
  pub window : ℤ
  pub fail_closed : Bool

abbrev pub effective_rate : RateLimitConfig → ℤ
effective_rate cfg = add64 (if leb_ℤ cfg.rate (pos 0) then pos 60 else cfg.rate) cfg.burst

abbrev pub effective_window : RateLimitConfig → ℤ
effective_window cfg = if leb_ℤ cfg.window (pos 0) then pos 60000000000 else cfg.window

-- `none` for an error, of the key function or of the store.
unfoldable pub rate_limit :
    RateLimitConfig → Option String → (String → ℤ → ℤ → Option Allowed) → Decision
rate_limit cfg none store = http_error 500
rate_limit cfg (some key) store = elim (store key (effective_rate cfg) (effective_window cfg)) [
  | none ↦ if cfg.fail_closed then http_error 503 else next
  | some a ↦ if a.allowed then next else http_error 429
]
