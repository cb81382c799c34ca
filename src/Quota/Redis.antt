-- ===== src/Quota/Redis.antt =====
-- The commands of Redis that the quotas send: an interface, as Redis is not part of the program. A key
-- that is missing counts as 0; the expiry of a key, which comes after its window, is not modelled.
use vibe_shield.Prelude.{ℕ, ◌+◌, ◌≡◌, false, Text, same_text}

pub record Redis : Type 1 where
  pub Store : Type 0
  pub value : Text → Store → ℕ
  -- INCRBY, with INCR for an increment of 1.
  pub incrby : Text → ℕ → Store → ℕ × Store
  pub expire : Text → ℕ → Store → Store
  pub incrby_returns : (k : Text) (n : ℕ) (s : Store) → (incrby k n s).0 ≡ value k s + n
  pub incrby_here : (k : Text) (n : ℕ) (s : Store) → value k (incrby k n s).1 ≡ value k s + n
  pub incrby_there :
      (k j : Text) (n : ℕ) (s : Store)
      → same_text k j ≡ false
      → value j (incrby k n s).1 ≡ value j s
  pub expire_keeps :
      (k j : Text) (seconds : ℕ) (s : Store) → value j (expire k seconds s) ≡ value j s
