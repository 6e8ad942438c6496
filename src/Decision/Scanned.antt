-- ===== src/Decision/Scanned.antt =====
-- How the scanner of `backend/src/agent/decision.ts` goes through the text of an object.
use bondsman.Common.{
  ℕ, suc, ◌+◌, true, false, ◌||◌, some, List, [], ◌∷◌, ◌++◌, ◌==◌, nat_eq, length, ◌≡◌, refl, ◌∙◌,
  ap, arith, length-append,
}
use bondsman.Decision.{
  Scan, in_string, opened, closed, scan_step, scan_from, quote, backslash, left_brace, right_brace,
}
use bondsman.Decision.Grammar.{Quoted, close, unit, escape, Body, done, other, string, nested}

pub append_assoc : (xs ys zs : List ℕ) → (xs ++ ys) ++ zs ≡ xs ++ (ys ++ zs)
append_assoc [] ys zs = refl
append_assoc (x ∷ xs) ys zs = ap (λ t. x ∷ t) (append_assoc xs ys zs)

-- The scanner inside an object, and in a string of it.
abbrev pub inside : ℕ → ℕ → List (List ℕ) → Scan
inside depth start found = record {
  found = found;
  depth = suc depth;
  start = some start;
  quoted = false;
  escaped = false;
}

abbrev in_quotes : ℕ → ℕ → List (List ℕ) → Scan
in_quotes depth start found = record (inside depth start found) { quoted = true }

module _ (source : List ℕ) (start : ℕ) (found : List (List ℕ)) where
  pub moved :
      (i j : ℕ) (tail : List ℕ) (s : Scan)
      → i ≡ j
      → scan_from source i tail s ≡ scan_from source j tail s
  moved i j tail s e = ap (λ k. scan_from source k tail s) e

  string_step :
      (c index depth : ℕ)
      → (c == quote || c == backslash) ≡ false
      → scan_step source index c (in_quotes depth start found) ≡ in_quotes depth start found
  unfolding scan_step in_string
  string_step c index depth kept = ground arith

  scan_quoted :
      {qs : List ℕ} (q : Quoted qs) (index depth : ℕ) (tail : List ℕ)
      → scan_from source index (qs ++ tail) (in_quotes depth start found)
        ≡ scan_from source (index + length qs) tail (inside depth start found)
  unfolding scan_from
  scan_quoted close index depth tail = unfold scan_step in_string in refl
  scan_quoted (unit {cs = cs} c kept q) index depth tail =
      ap (λ s. scan_from source (index + 1) (cs ++ tail) s) (string_step c index depth kept)
      ∙ scan_quoted q (index + 1) depth tail
      ∙ moved (index + 1 + length cs) (index + suc (length cs)) tail (inside depth start found)
          (omega arith)
  scan_quoted (escape {cs = cs} c q) index depth tail =
      (unfold scan_step in_string in refl)
      ∙ scan_quoted q (index + 1 + 1) depth tail
      ∙ moved (index + 1 + 1 + length cs) (index + suc (suc (length cs))) tail
          (inside depth start found) (omega arith)

  other_step :
      (c index depth : ℕ)
      → (c == quote || c == left_brace || c == right_brace) ≡ false
      → scan_step source index c (inside depth start found) ≡ inside depth start found
  unfolding scan_step
  other_step c index depth kept = ground arith

  open_step :
      (index depth : ℕ)
      → scan_step source index left_brace (inside depth start found)
        ≡ inside (suc depth) start found
  unfolding scan_step opened
  open_step index depth = ground arith

  close_step :
      (index depth : ℕ)
      → scan_step source index right_brace (inside (suc depth) start found)
        ≡ inside depth start found
  unfolding scan_step closed
  close_step index depth = ground arith

  pub scan-Body :
      {body : List ℕ} (b : Body body) (index depth : ℕ) (tail : List ℕ)
      → scan_from source index (body ++ tail) (inside depth start found)
        ≡ scan_from source (index + length body) tail (inside depth start found)
  unfolding scan_from
  scan-Body done index depth tail =
      moved index (index + 0) tail (inside depth start found) (omega arith)
  scan-Body (other {cs = cs} c kept b) index depth tail =
      ap (λ s. scan_from source (index + 1) (cs ++ tail) s) (other_step c index depth kept)
      ∙ scan-Body b (index + 1) depth tail
      ∙ moved (index + 1 + length cs) (index + suc (length cs)) tail (inside depth start found)
          (omega arith)
  scan-Body (string {qs = qs} {cs = cs} q b) index depth tail =
      ap
        (λ t.
          scan_from source (index + 1) t (scan_step source index quote (inside depth start found)))
        (append_assoc qs cs tail)
      ∙ (unfold scan_step in refl)
      ∙ scan_quoted q (index + 1) depth (cs ++ tail)
      ∙ scan-Body b (index + 1 + length qs) depth tail
      ∙ moved (index + 1 + length qs + length cs) (index + suc (length (qs ++ cs))) tail
          (inside depth start found) (omega (arith, length-append qs cs))
  scan-Body (nested {xs = xs} {cs = cs} inner b) index depth tail =
      ap
        (λ t.
          scan_from source (index + 1) t
            (scan_step source index left_brace (inside depth start found)))
        (append_assoc xs (right_brace ∷ cs) tail)
      ∙ ap (λ s. scan_from source (index + 1) (xs ++ (right_brace ∷ (cs ++ tail))) s)
          (open_step index depth)
      ∙ scan-Body inner (index + 1) (suc depth) (right_brace ∷ (cs ++ tail))
      ∙ ap (λ s. scan_from source (index + 1 + length xs + 1) (cs ++ tail) s)
          (close_step (index + 1 + length xs) depth)
      ∙ scan-Body b (index + 1 + length xs + 1) depth tail
      ∙ moved (index + 1 + length xs + 1 + length cs)
          (index + suc (length (xs ++ (right_brace ∷ cs)))) tail (inside depth start found)
          (omega (arith, length-append xs (right_brace ∷ cs)))
