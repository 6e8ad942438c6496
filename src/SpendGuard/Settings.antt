-- ===== src/SpendGuard/Settings.antt =====
-- `envMotes`, `envInteger`, the limits and `estimateMotes` of `backend/src/ops/spend-guard.ts`.
use bondsman.Common.{
  ℕ, ◌+◌, ◌-◌, ◌*◌, String, Bool, true, false, ◌&&◌, ◌||◌, Option, none, some, List, [], ◌∷◌, ◌==◌,
  nat_eq, leb, ltb, if◌then◌else◌,
}
use mathlib.Core.List.{reverse}
use bondsman.Authorization.{codes}

-- What `process.env` holds under the names that the limits read, `none` where a name is not set.
pub record Environment : Type 0 where
  pub account_hour_motes : String → Option String
  pub account_day_motes : String → Option String
  pub account_hour : String → Option String
  pub account_day : String → Option String
  pub hour_motes : Option String
  pub day_motes : Option String
  pub hour : Option String
  pub day : Option String

-- The option `gas`; a number is given rounded up.
pub data Gas : Type 0 where
  unset : Gas
  motes : ℕ → Gas
  text : String → Gas

abbrev pub cspr : ℕ
cspr = 1_000_000_000

-- White space as `trim` and `\s` read it.
unfoldable pub is_space : ℕ → Bool
is_space c =
    (leb 9 c && leb c 13)
    || c == 32
    || c == 160
    || c == 5760
    || (leb 8192 c && leb c 8202)
    || c == 8232
    || c == 8233
    || c == 8239
    || c == 8287
    || c == 12288
    || c == 65279

unfoldable pub drop_spaces : List ℕ → List ℕ
unfolding is_space
drop_spaces [] = []
drop_spaces (c ∷ cs) = let rest = drop_spaces cs in if is_space c then rest else c ∷ cs

trim : String → List ℕ
unfolding drop_spaces
trim s = reverse (drop_spaces (reverse (drop_spaces (codes s))))

is_letter : ℕ → ℕ → Bool
is_letter lower c = c == lower || c + 32 == lower

-- `cspr` in any case, and nothing after it
is_unit : List ℕ → Bool
unfolding is_letter
is_unit (c ∷ s ∷ p ∷ r ∷ []) =
    is_letter 99 c && is_letter 115 s && is_letter 112 p && is_letter 114 r
is_unit _ = false

is_digit_code : ℕ → Bool
is_digit_code c = leb 48 c && leb c 57

-- The digits at the front, and what follows them. `none` where there is none.
leading_digits : Option ℕ → List ℕ → Option (ℕ × List ℕ)
unfolding is_digit_code
leading_digits seen [] = elim seen [ none ↦ none | some n ↦ some (n, []) ]
leading_digits none (c ∷ cs) =
    let rest = leading_digits (some (c - 48)) cs in if is_digit_code c then rest else none
leading_digits (some n) (c ∷ cs) =
    let rest = leading_digits (some (n * 10 + (c - 48))) cs in
    if is_digit_code c then rest else some (n, c ∷ cs)

-- The digits of a text that matches `/^(\d+)(?:\s*cspr)?$/i`, and whether the unit is there.
amount_and_unit : List ℕ → Option (ℕ × Bool)
unfolding leading_digits drop_spaces is_unit
amount_and_unit cs = elim (leading_digits none cs) [
  | none ↦ none
  | some (n, rest) ↦ elim rest [
    | [] ↦ some (n, false)
    | c ∷ more ↦ if is_unit (drop_spaces (c ∷ more)) then some (n, true) else none
  ]
]

-- A plain number counts motes here.
env_motes : Option String → ℕ → ℕ
unfolding trim amount_and_unit
env_motes none fallback = fallback
env_motes (some raw) fallback = elim (amount_and_unit (trim raw)) [
  | none ↦ fallback
  | some (n, unit) ↦ if unit then n * cspr else n
]

-- `Number.parseInt`, where the result is above 0
positive_int : List ℕ → Option ℕ
unfolding leading_digits
positive_int cs = elim (leading_digits none cs) [
  | none ↦ none
  | some (n, _) ↦ if ltb 0 n then some n else none
]

-- A sign of `parseInt`: no number after a minus is above 0.
signed_int : List ℕ → Option ℕ
unfolding positive_int
signed_int [] = none
signed_int (c ∷ cs) = if c == 43 then positive_int cs else positive_int (c ∷ cs)

env_integer : Option String → ℕ → ℕ
unfolding trim signed_int
env_integer none fallback = fallback
env_integer (some raw) fallback = elim (signed_int (trim raw)) [ none ↦ fallback | some n ↦ n ]

unfoldable pub hourly_limit : Environment → String → ℕ
unfolding env_motes
hourly_limit env account =
    env_motes (env.account_hour_motes account) (env_motes env.hour_motes (500 * cspr))

unfoldable pub daily_limit : Environment → String → ℕ
unfolding env_motes
daily_limit env account =
    env_motes (env.account_day_motes account) (env_motes env.day_motes (5_000 * cspr))

unfoldable pub hourly_transaction_limit : Environment → String → ℕ
unfolding env_integer
hourly_transaction_limit env account =
    env_integer (env.account_hour account) (env_integer env.hour 50)

unfoldable pub daily_transaction_limit : Environment → String → ℕ
unfolding env_integer
daily_transaction_limit env account =
    env_integer (env.account_day account) (env_integer env.day 500)

-- A plain number counts whole tokens here, and what does not match counts as 50 of them.
unfoldable pub estimate_motes : Gas → ℕ
unfolding trim amount_and_unit
estimate_motes unset = 50 * cspr
estimate_motes (motes n) = n
estimate_motes (text s) = elim (amount_and_unit (trim s)) [
  | none ↦ 50 * cspr
  | some (n, _) ↦ n * cspr
]
