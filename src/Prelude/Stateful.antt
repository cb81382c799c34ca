-- ===== src/Prelude/Stateful.antt =====
-- Code that may throw and that changes a state: what it gives is the value or what was thrown, and
-- the state it leaves in both cases.
use vibe_shield.Prelude.Results.{Result, ok, err}

abbrev pub Action : Type 0 → Type 0 → Type 0 → Type 0
Action S E A = S → Result E A × S

module _ {S E : Type 0} where
  abbrev pub pure : {A : Type 0} → A → Action S E A
  pure a s = (ok a, s)

  abbrev pub then_do : {A B : Type 0} → (A → Action S E B) → Result E A × S → Result E B × S
  then_do f (ok a, s) = f a s
  then_do f (err e, s) = (err e, s)

  abbrev pub throw : {A : Type 0} → E → Action S E A
  throw e s = (err e, s)

  -- What throws or not, and changes nothing.
  abbrev pub lift : {A : Type 0} → Result E A → Action S E A
  lift r s = (r, s)

  infixl 5 ◌>>=◌ ◌>>◌
  abbrev pub ◌>>=◌ : {A B : Type 0} → Action S E A → (A → Action S E B) → Action S E B
  (m >>= f) s = then_do f (m s)

  abbrev pub ◌>>◌ : {A B : Type 0} → Action S E A → Action S E B → Action S E B
  (m >> k) s = then_do (λ _. k) (m s)

  -- A state that keeps the invariant, and a value of the kind where there is one.
  abbrev pub Holds : {A : Type 0} → (S → Type 0) → (A → Type 0) → Result E A × S → Type 0
  Holds I P (ok a, s) = P a × I s
  Holds I P (err e, s) = I s

  -- An action that keeps the invariant, and whose values are of the kind.
  abbrev pub Ensures : {A : Type 0} → (S → Type 0) → (A → Type 0) → Action S E A → Type 0
  Ensures I P m = (s : S) → I s → Holds I P (m s)

  pub Ensures->>= :
      {A B : Type 0} (I : S → Type 0) (P : A → Type 0) (Q : B → Type 0) (m : Action S E A)
      (f : A → Action S E B)
      → Ensures I P m
      → ((a : A) → P a → Ensures I Q (f a))
      → Ensures I Q (m >>= f)
  Ensures->>= I P Q m f first next s i = after (m s) (first s i)
    where
      after : (r : _) → Holds I P r → Holds I Q (then_do f r)
      after (ok a, s') (h, i') = next a h s' i'
      after (err e, s') i' = i'

  pub Ensures-weaken :
      {A : Type 0} (I : S → Type 0) (P Q : A → Type 0) (m : Action S E A)
      → Ensures I P m
      → ((a : A) → P a → Q a)
      → Ensures I Q m
  Ensures-weaken I P Q m h f s i = after (m s) (h s i)
    where
      after : (r : _) → Holds I P r → Holds I Q r
      after (ok a, s') (p, i') = (f a p, i')
      after (err e, s') i' = i'

  -- An action whose value is passed on under a constructor.
  pub Ensures-map :
      {A B : Type 0} (I : S → Type 0) (P : A → Type 0) (Q : B → Type 0) (m : Action S E A)
      (f : A → B)
      → Ensures I P m
      → ((a : A) → P a → Q (f a))
      → Ensures I Q (m >>= λ a. pure (f a))
  Ensures-map I P Q m f h g = Ensures->>= I P Q m (λ a. pure (f a)) h (λ a p s i. (g a p, i))

  -- Two actions whose values are.
  pub Ensures-map₂ :
      {A B C : Type 0} (I : S → Type 0) (P : A → Type 0) (R : B → Type 0) (Q : C → Type 0)
      (m : Action S E A) (n : Action S E B) (f : A → B → C)
      → Ensures I P m
      → Ensures I R n
      → ((a : A) → P a → (b : B) → R b → Q (f a b))
      → Ensures I Q (m >>= λ a. n >>= λ b. pure (f a b))
  Ensures-map₂ I P R Q m n f h k g =
      Ensures->>= I P Q m (λ a. n >>= λ b. pure (f a b)) h
        (λ a p. Ensures-map I R Q n (f a) k (g a p))

  -- Whatever comes of an action, the state it leaves is of the kind, from a state that keeps the
  -- invariant.
  abbrev pub Leaves : {A : Type 0} → (S → Type 0) → (S → Type 0) → Action S E A → Type 0
  Leaves I J m = (s : S) → I s → J (m s).1

  pub Ensures-Leaves :
      {A B : Type 0} (I J : S → Type 0) (P : A → Type 0) (m : Action S E A) (f : A → Action S E B)
      → ((s : S) → I s → J s)
      → Ensures I P m
      → ((a : A) → P a → Leaves I J (f a))
      → Leaves I J (m >>= f)
  Ensures-Leaves I J P m f weaker first next s i = after (m s) (first s i)
    where
      after : (r : _) → Holds I P r → J (then_do f r).1
      after (ok a, s') (h, i') = next a h s' i'
      after (err e, s') i' = weaker s' i'
