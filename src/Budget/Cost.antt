-- ===== src/Budget/Cost.antt =====
-- src/budget/cost.ts: tokens of a text, the price of a model or of its dated snapshot, and the cost.
use jin_core.Base.{
  ℕ, zero, suc, String, Bool, true, false, Option, none, some, [], ◌∷◌, ◌+◌, ◌*◌, ◌/◌, ◌==◌, ◌&&◌,
  ◌||◌, leb, str_eq, if◌then◌else◌,
}
use Prim.Native.Char.{Char, code}
use jin_core.ModelProvider.Types.{ModelPrice, ModelPrices}
use jin_core.Runtime.Program.{Answer, ok, err, no_price_configured}

-- `text.length`, in UTF-16 units
unfoldable pub text_length : String → ℕ
text_length String.[] = 0
text_length (String.◌∷◌ c s) = (if leb 65536 (code c) then 2 else 1) + text_length s

-- `Math.ceil(text.length / 4)`
unfoldable pub estimate_tokens : String → ℕ
unfolding text_length
estimate_tokens s = (text_length s + 3) / 4

-- `\d` and `.`
abbrev pub is_digit : Char → Bool
is_digit c = leb b'0' (code c) && leb (code c) b'9'

abbrev pub ends_line : Char → Bool
ends_line c = code c == 10 || code c == 13 || code c == 8232 || code c == 8233

unfoldable pub is_digits : ℕ → String → Bool
is_digits zero String.[] = true
is_digits zero (String.◌∷◌ _ _) = false
is_digits (suc n) String.[] = false
is_digits (suc n) (String.◌∷◌ c s) = is_digit c && is_digits n s

-- `-\d{8}$`
unfoldable pub is_date_suffix : String → Bool
unfolding is_digits
is_date_suffix String.[] = false
is_date_suffix (String.◌∷◌ c s) = code c == b'-' && is_digits 8 s

abbrev pub prepend : Char → Option String → Option String
prepend c none = none
prepend c (some s) = some (String.◌∷◌ c s)

-- what stands before the date, of characters that `.` matches
unfoldable pub before_date : String → Option String
unfolding is_date_suffix
before_date String.[] = none
before_date (String.◌∷◌ c s) =
    let rest = before_date s in
    if is_date_suffix (String.◌∷◌ c s)
    then some String.[]
    else if ends_line c
    then none
    else prepend c rest

-- `/^(.+)-\d{8}$/.exec(modelId)?.[1]`
unfoldable pub alias_of : String → Option String
unfolding before_date
alias_of String.[] = none
alias_of (String.◌∷◌ c s) = if ends_line c then none else prepend c (before_date s)

unfoldable pub price_of : String → ModelPrices → Option ModelPrice
price_of model [] = none
price_of model ((name, p) ∷ r) = if str_eq name model then some p else price_of model r

abbrev pub price_of_alias : ModelPrices → Option String → Option ModelPrice
price_of_alias prices none = none
price_of_alias prices (some alias) = price_of alias prices

abbrev pub or_alias : ModelPrices → String → Option ModelPrice → Option ModelPrice
or_alias prices model (some exact) = some exact
or_alias prices model none = price_of_alias prices (alias_of model)

unfoldable pub resolve_price : ModelPrices → String → Option ModelPrice
unfolding price_of alias_of
resolve_price prices model = or_alias prices model (price_of model prices)

-- in millionths of a millionth of a dollar, which is exact
abbrev pub cost_at : String → ℕ → ℕ → Option ModelPrice → Answer ℕ
cost_at model input_tokens output_tokens none = err (no_price_configured model)
cost_at model input_tokens output_tokens (some p) =
    ok (input_tokens * p.input_per_million + output_tokens * p.output_per_million)

unfoldable pub compute_cost_usd : ModelPrices → String → ℕ → ℕ → Answer ℕ
unfolding resolve_price
compute_cost_usd prices model input_tokens output_tokens =
    cost_at model input_tokens output_tokens (resolve_price prices model)

-- the scale of the column `numeric(12, 6)`, by which the database rounds
unfoldable pub to_column : ℕ → ℕ
to_column exact = (exact + 500000) / 1000000
