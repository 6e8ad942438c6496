-- ===== src/Decision/Grammar.antt =====
-- Texts of JSON objects as far as the scanner of `backend/src/agent/decision.ts` tells them apart: braces
-- that match, and strings in which they do not count.
use bondsman.Common.{ℕ, false, ◌||◌, List, [], ◌∷◌, ◌++◌, ◌==◌, nat_eq, ◌≡◌, any}
use bondsman.Decision.{quote, backslash, left_brace, right_brace}

-- What follows the quote that opens a string, with the quote that closes it.
pub data Quoted : List ℕ → Type 0 where
  close : Quoted (quote ∷ [])
  unit :
      {cs : List ℕ} (c : ℕ) → (c == quote || c == backslash) ≡ false → Quoted cs → Quoted (c ∷ cs)
  escape : {cs : List ℕ} (c : ℕ) → Quoted cs → Quoted (backslash ∷ c ∷ cs)

-- What may stand between two braces.
pub data Body : List ℕ → Type 0 where
  done : Body []
  other :
      {cs : List ℕ} (c : ℕ)
      → (c == quote || c == left_brace || c == right_brace) ≡ false
      → Body cs
      → Body (c ∷ cs)
  string : {qs cs : List ℕ} → Quoted qs → Body cs → Body (quote ∷ qs ++ cs)
  nested : {xs cs : List ℕ} → Body xs → Body cs → Body (left_brace ∷ xs ++ right_brace ∷ cs)

abbrev pub object_text : List ℕ → List ℕ
object_text body = left_brace ∷ body ++ right_brace ∷ []

-- Text before the first object: no quote, and no brace that opens.
abbrev pub IsProse : List ℕ → Type 0
IsProse text = any (λ c. c == quote || c == left_brace) text ≡ false
