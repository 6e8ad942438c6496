-- ===== src/Submit/Examples.antt =====
-- One quote, submitted by two requests.
use bondsman.Common.{◌+◌, ◌≤◌, ◌<◌, String, none, some, List, [], ◌∷◌, ◌≡◌, ◌≢◌, refl, string_eq}
use bondsman.Common.Decimal.{big_int}
use bondsman.Common.Table.{lookup}
use bondsman.Policy.{delivery_contradiction}
use bondsman.Repository.Records.{goods_not_received, paid}
use bondsman.Repository.Quotes.{paid_quote}
use bondsman.Repository.Quotes.Examples.{quote, quoted}
use bondsman.Authorization.Examples.{trusting, authorization}
use bondsman.Economics.{bond_economic_relation}
use bondsman.Submit.{SubmitInput, ok, err, quote_policy_stale, admit, authorize, quote_policy_fresh}
use bondsman.Submit.Handler.{admit_sound}
use bondsman.Submit.Interleaving.{
  Move, authorizing, settling, quoting, start, schedule, in_flight, answers, schedule-answers,
}

abbrev input : SubmitInput
input = record {
  quote_hash = "0xaa";
  fault_class = delivery_contradiction;
  buyer_public_key = some "MCowBQYDK2VwAyEA";
  event_type = goods_not_received;
  submit_authorization = authorization;
}

abbrev payload : SubmitInput → String
payload i = i.quote_hash

admit-quoted : admit input 5 quoted ≡ ok quote
unfolding admit paid_quote lookup
admit-quoted = refl

admit_sound_example :
    (paid_quote "0xaa" quoted ≡ some quote)
    × (paid ≡ paid)
    × (5 < 900_000)
    × (delivery_contradiction ≡ delivery_contradiction)
    × (quote.payer ≢ none)
    × (delivery_contradiction ≡ delivery_contradiction → input.buyer_public_key ≢ none)
admit_sound_example = admit_sound input 5 quoted quote admit-quoted

authorize_stale :
    (authorize trusting payload input quote "7" 2000 quoted).0 ≡ err quote_policy_stale
unfolding authorize quote_policy_fresh bond_economic_relation big_int
authorize_stale = refl

abbrev race : List Move
race =
    authorizing input quote "2600000000000" 2000
    ∷ authorizing input quote "2600000000000" 2000
    ∷ settling "0xaa" (some 27) 3000
    ∷ quoting quote
    ∷ authorizing input quote "2600000000000" 4000
    ∷ settling "0xaa" (some 28) 5000
    ∷ []

schedule-answers_example :
    in_flight "0xaa" (schedule trusting payload race (start quoted))
      + answers "0xaa" (schedule trusting payload race (start quoted))
    ≤ 1
schedule-answers_example = schedule-answers trusting payload "0xaa" race quoted
