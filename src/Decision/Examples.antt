-- ===== src/Decision/Examples.antt =====
-- Answers of a language model. The parser of the examples reads one object.
use bondsman.Common.{ℕ, false, Option, none, some, List, [], ◌∷◌, ◌++◌, ◌≡◌, refl, if◌then◌else◌}
use bondsman.Authorization.{codes, same_codes}
use bondsman.SpendGuard.Settings.{drop_spaces, is_space}
use bondsman.Decision.{
  Parsed, AgentDecision, approve, json_objects, scan_from, scan_step, in_string, opened, closed,
  slice, pushed, parse_decision, decision_of, first_decision, decision_schema, trimmed,
  is_confidence, is_reasoning, checked,
}
use bondsman.Decision.Grammar.{Body, done, string, unit, close, object_text}
use bondsman.Decision.Accepted.{parse_decision-finds}
use bondsman.Decision.Bounded.{IsDecision, parse_decision-IsDecision}

-- A brace in a string, and an object in an object.
two_objects :
    json_objects (codes "a } {\"k\": \"}\"} and {{}}") ≡ codes "{\"k\": \"}\"}" ∷ codes "{{}}" ∷ []
unfolding json_objects scan_from scan_step in_string opened closed pushed slice
two_objects = refl

-- A single quote before the object hides it.
hidden_by_quote : json_objects (codes "5\" of rain {\"k\": 1}") ≡ []
unfolding json_objects scan_from scan_step in_string opened closed pushed slice
hidden_by_quote = refl

abbrev parsed : Parsed
parsed = record {
  decision = some approve;
  reasoning = some (codes " ok ");
  confidence = some (record { negative = false; numerator = 1; denominator = 2 });
  extra = false;
}

json_parse : List ℕ → Option Parsed
unfolding same_codes
json_parse text = if same_codes text (codes "{\"{\"}") then some parsed else none

abbrev accepted : AgentDecision
accepted = record {
  decision = approve;
  reasoning = codes "ok";
  confidence = record { negative = false; numerator = 1; denominator = 2 };
}

abbrev body : List ℕ
body = codes "\"{\""

is_body : Body body
is_body = string {qs = codes "{\""} {cs = []} (unit 123 refl close) done

parse_decision-finds_example :
    parse_decision json_parse (codes "Yes } " ++ (object_text body ++ codes " {")) ≡ some accepted
parse_decision-finds_example =
    parse_decision-finds json_parse (codes "Yes } ") body (codes " {") accepted refl is_body (
      unfold decision_of json_parse same_codes decision_schema checked trimmed drop_spaces is_space
        is_confidence is_reasoning in
      refl)

-- The same answer, by the definitions alone.
answered :
    parse_decision json_parse (codes "Yes } " ++ (object_text body ++ codes " {")) ≡ some accepted
unfolding parse_decision json_objects scan_from scan_step in_string opened closed pushed slice
    first_decision decision_of json_parse same_codes decision_schema checked trimmed drop_spaces
    is_space is_confidence is_reasoning
answered = refl

parse_decision-IsDecision_example : IsDecision accepted
parse_decision-IsDecision_example =
    parse_decision-IsDecision json_parse (codes "Yes } " ++ (object_text body ++ codes " {"))
      accepted answered
