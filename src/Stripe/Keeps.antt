-- ===== src/Stripe/Keeps.antt =====
-- Rules for handlers that test, look up and answer: a predicate of the state holds afterwards if it
-- holds after every branch.
use hamr.Base.{ℕ, Bool, true, false, ◌≡◌, refl, Option, none, some, if◌then◌else◌}
use hamr.Stripe.State.{StripeMock, Problem, Reply, ok, refused, Answer}

module _ {A : Type 0} (P : StripeMock → Type 0) where
  -- The state that an answer leaves satisfies `P`.
  abbrev pub Leaves : Answer A → Type 0
  Leaves r = P r.1

  pub Leaves-if :
      (b : Bool) (x y : Answer A)
      → (b ≡ true → Leaves x)
      → (b ≡ false → Leaves y)
      → Leaves (if b then x else y)
  Leaves-if true x y hx hy = hx refl
  Leaves-if false x y hx hy = hy refl

  pub Leaves-option :
      {V : Type 0} (o : Option V) (x : Answer A) (f : V → Answer A)
      → Leaves x
      → ((v : V) → o ≡ some v → Leaves (f v))
      → Leaves (elim o [ none ↦ x | some v ↦ f v ])
  Leaves-option none x f hx hf = hx
  Leaves-option (some v) x f hx hf = hf v refl

  pub Leaves-reply :
      {B : Type 0} (r : Reply B) (g : ℕ → Problem → Answer A) (f : B → Answer A)
      → ((status : ℕ) (p : Problem) → Leaves (g status p))
      → ((b : B) → r ≡ ok b → Leaves (f b))
      → Leaves (elim r [ refused status p ↦ g status p | ok b ↦ f b ])
  Leaves-reply (ok b) g f hg hf = hf b refl
  Leaves-reply (refused status p) g f hg hf = hg status p
