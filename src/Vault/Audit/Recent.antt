-- ===== src/Vault/Audit/Recent.antt =====
-- Which rows the list of recent events holds.
use vibe_shield.Prelude.{◌≤◌, List, [], ◌∷◌, ◌++◌, All}
use vibe_shield.Vault.Audit.{AuditRow}

-- Rows in the order in which they were written.
abbrev pub IsChronological : List AuditRow → Type 0
IsChronological [] = Unit
IsChronological (r ∷ rows) = All (λ s. r.created_at ≤ s.created_at) rows × IsChronological rows

-- The last row first.
abbrev pub reverse {ℓ} : {A : Type ℓ} → List A → List A
reverse [] = []
reverse (x ∷ xs) = reverse xs ++ x ∷ []
