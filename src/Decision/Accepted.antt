-- ===== src/Decision/Accepted.antt =====
-- Which decision `parseDecision` of `backend/src/agent/decision.ts` returns.
use bondsman.Common.{
  ℕ, ◌+◌, ◌-◌, false, ◌||◌, Option, none, some, List, [], ◌∷◌, ◌++◌, ◌==◌, nat_eq, length, take,
  drop, ◌≡◌, refl, ◌∙◌, ap, arith, length-append, some-eq,
}
use bondsman.Decision.{
  Scan, new_scan, slice, in_string, opened, closed, pushed, scan_step, scan_from, json_objects,
  quote, left_brace, right_brace, Parsed, AgentDecision, decision_of, first_decision,
  parse_decision,
}
use bondsman.Decision.Grammar.{Body, object_text, IsProse}
use bondsman.Decision.Scanned.{inside, scan-Body, append_assoc}

abbrev first : List (List ℕ) → Option (List ℕ)
first [] = none
first (x ∷ xs) = some x

first-append : (xs ys : List (List ℕ)) (o : List ℕ) → first xs ≡ some o → first (xs ++ ys) ≡ some o
first-append [] ys o h = absurd (ground arith)
first-append (x ∷ xs) ys o h = h

drop-append : (xs ys : List ℕ) → drop (length xs) (xs ++ ys) ≡ ys
drop-append [] [] = refl
drop-append [] (y ∷ ys) = refl
drop-append (x ∷ xs) ys = drop-append xs ys

take-append : (xs ys : List ℕ) → take (length xs) (xs ++ ys) ≡ xs
take-append [] [] = refl
take-append [] (y ∷ ys) = refl
take-append (x ∷ xs) ys = ap (λ t. x ∷ t) (take-append xs ys)

slice-append :
    (xs ys zs : List ℕ) (to : ℕ)
    → to ≡ length xs + length ys
    → slice (xs ++ (ys ++ zs)) (length xs) to ≡ ys
unfolding slice
slice-append xs ys zs to h =
    ap (λ n. take n (drop (length xs) (xs ++ (ys ++ zs)))) (difference (length xs) (length ys) to h)
    ∙ ap (λ t. take (length ys) t) (drop-append xs (ys ++ zs))
    ∙ take-append ys zs
  where
    difference : (a b to : ℕ) → to ≡ a + b → to - a ≡ b
    difference a b to h = omega arith

module _ (source : List ℕ) (o : List ℕ) where
  pushed-first :
      (index : ℕ) (start : Option ℕ) (s : Scan)
      → first s.found ≡ some o
      → first (pushed source index start s).found ≡ some o
  unfolding pushed
  pushed-first index none s h = h
  pushed-first index (some start) s h =
      first-append s.found (slice source start (index + 1) ∷ []) o h

  scan_step-first :
      (index c : ℕ) (s : Scan)
      → first s.found ≡ some o
      → first (scan_step source index c s).found ≡ some o
  unfolding scan_step in_string opened closed
  scan_step-first index c s h =
      let kept = pushed-first index s.start (record s { depth = s.depth - 1 }) h in ground arith

  scan_from-first :
      (index : ℕ) (rest : List ℕ) (s : Scan)
      → first s.found ≡ some o
      → first (scan_from source index rest s).found ≡ some o
  unfolding scan_from
  scan_from-first index [] s h = h
  scan_from-first index (c ∷ rest) s h =
      scan_from-first (index + 1) rest (scan_step source index c s) (scan_step-first index c s h)

prose_step :
    (source : List ℕ) (index c : ℕ)
    → (c == quote || c == left_brace) ≡ false
    → scan_step source index c new_scan ≡ new_scan
unfolding scan_step
prose_step source index c h = ground arith

scan_prose :
    (source : List ℕ) (index : ℕ) (prose tail : List ℕ)
    → IsProse prose
    → scan_from source index (prose ++ tail) new_scan
      ≡ scan_from source (index + length prose) tail new_scan
unfolding scan_from
scan_prose source index [] tail h = ap (λ i. scan_from source i tail new_scan) (omega arith)
scan_prose source index (c ∷ prose) tail h =
    ap (λ s. scan_from source (index + 1) (prose ++ tail) s)
      (prose_step source index c (ground arith))
    ∙ scan_prose source (index + 1) prose tail (ground arith)
    ∙ ap (λ i. scan_from source i tail new_scan) (omega arith)

-- The scanner from the brace that opens an object to the one that closes it.
scan_object :
    (source : List ℕ) (index : ℕ) (body rest : List ℕ)
    → Body body
    → scan_from source index (object_text body ++ rest) new_scan
      ≡ scan_from source
          (index + length (object_text body))
          rest
          (record new_scan { found = slice source index (index + length (object_text body)) ∷ [] })
unfolding scan_from
scan_object source index body rest b =
    ap (λ t. scan_from source (index + 1) t (scan_step source index left_brace new_scan))
      (append_assoc body (right_brace ∷ []) rest)
    ∙ ap (λ s. scan_from source (index + 1) (body ++ (right_brace ∷ rest)) s) (first_brace index)
    ∙ scan-Body source index [] b (index + 1) 0 (right_brace ∷ rest)
    ∙ ap (λ s. scan_from source (index + 1 + length body + 1) rest s)
        (last_brace (index + 1 + length body))
    ∙ ap (λ k. scan_from source k rest (record new_scan { found = slice source index k ∷ [] }))
        (omega (arith, length-append body (right_brace ∷ [])))
  where
    first_brace : (i : ℕ) → scan_step source i left_brace new_scan ≡ inside 0 i []
    first_brace i = unfold scan_step opened in refl

    last_brace :
        (i : ℕ)
        → scan_step source i right_brace (inside 0 index [])
          ≡ record new_scan { found = slice source index (i + 1) ∷ [] }
    last_brace i = unfold scan_step closed pushed in refl

json_objects-first :
    (prose body rest : List ℕ)
    → IsProse prose
    → Body body
    → first (json_objects (prose ++ (object_text body ++ rest))) ≡ some (object_text body)
unfolding json_objects
json_objects-first prose body rest plain b =
    let source = prose ++ (object_text body ++ rest) in
    let end = length prose + length (object_text body) in
    ap (λ s. first s.found)
      (scan_prose source 0 prose (object_text body ++ rest) plain
        ∙ ap (λ i. scan_from source i (object_text body ++ rest) new_scan)
            (zero_plus (length prose))
        ∙ scan_object source (length prose) body rest b)
    ∙ scan_from-first source (object_text body) end rest
        (record new_scan { found = slice source (length prose) end ∷ [] })
        (ap some (slice-append prose (object_text body) rest end refl))
  where
    zero_plus : (n : ℕ) → 0 + n ≡ n
    zero_plus n = omega arith

first_decision-first :
    (json_parse : List ℕ → Option Parsed) (candidates : List (List ℕ)) (o : List ℕ)
    (d : AgentDecision)
    → first candidates ≡ some o
    → decision_of json_parse o ≡ some d
    → first_decision json_parse candidates ≡ some d
unfolding first_decision
first_decision-first json_parse [] o d h accepted = absurd (ground arith)
first_decision-first json_parse (x ∷ xs) o d h accepted =
    let same : x ≡ o = some-eq h in rw same (rw (accepted, first_decision) refl)

-- An answer in which text with no quote and no opening brace comes before an object, and anything
-- after it: if the object parses to a decision that the schema takes, the answer is that decision. The
-- object is any text with matching braces, also where its strings hold braces and quotes.
pub parse_decision-finds :
    (json_parse : List ℕ → Option Parsed) (prose body rest : List ℕ) (d : AgentDecision)
    → IsProse prose
    → Body body
    → decision_of json_parse (object_text body) ≡ some d
    → parse_decision json_parse (prose ++ (object_text body ++ rest)) ≡ some d
unfolding parse_decision
parse_decision-finds json_parse prose body rest d plain b accepted =
    first_decision-first json_parse (json_objects (prose ++ (object_text body ++ rest)))
      (object_text body) d (json_objects-first prose body rest plain b) accepted
