-- ===== src/Signature.antt =====
-- services/slack_signature.py and `verify_slack_request` of core/dependencies.py: is a callback signed by
-- Slack, and recently? HMAC is a parameter; the clock's reading, in whole seconds, is an argument.
pub mod Window
pub mod Gate
use request_o_matic.Base.{
  ℕ, zero, suc, ◌+◌, ◌-◌, ◌*◌, Bool, true, false, not, ◌&&◌, ◌||◌, Option, none, some, List, [],
  ◌∷◌, ◌++◌, ltb, leb, ◌==◌, between, all, is_nil, if◌then◌else◌,
}
use request_o_matic.Base.Int.{ℤ, pos, negsuc}
use request_o_matic.Exec.{Exception, Exec, pure, throw}
use request_o_matic.Text.Url.{utf8}
use request_o_matic.Text.{Text, text, text_eq, is_given, is_space}
use request_o_matic.UaGate.{digit_value, is_digit}

-- What `int` takes for white space around a number: of ASCII, less than `str.strip` does.
unfoldable pub is_int_space : ℕ → Bool
is_int_space c = between 9 13 c || c == 32 || (ltb 127 c && is_space c)

unfoldable pub skip_space : Text → Text
skip_space [] = []
skip_space (c ∷ s) = if is_int_space c then skip_space s else c ∷ s

-- The digits of a number in base ten, after the first: underscores may stand between two of them, and
-- white space after the last. The count of digits and the value go along.
abbrev Digits : Type 0
Digits = Option (ℕ × ℕ)

unfoldable pub more_digits : ℕ → ℕ → Text → Digits
unfolding skip_space is_int_space
more_digits n value [] = some (n, value)
more_digits n value (c ∷ []) = elim (digit_value c) [
  | some d ↦ some (n + 1, value * 10 + d)
  | none ↦ if is_int_space c then some (n, value) else none
]
more_digits n value (c ∷ d ∷ s) = elim (digit_value c) [
  | some v ↦ more_digits (n + 1) (value * 10 + v) (d ∷ s)
  | none ↦ elim (c == b'_') [
    | true ↦ elim (digit_value d) [ none ↦ none | some v ↦ more_digits (n + 1) (value * 10 + v) s ]
    | false ↦ if is_nil (skip_space (c ∷ d ∷ s)) then some (n, value) else none
  ]
]

unfoldable pub all_digits : Text → Digits
unfolding more_digits
all_digits [] = none
all_digits (c ∷ s) = elim (digit_value c) [ none ↦ none | some v ↦ more_digits 1 v s ]

-- CPython refuses more than 4300 digits.
abbrev within_limit : Digits → Option ℕ
within_limit none = none
within_limit (some (n, value)) = if ltb 4300 n then none else some value

abbrev negate : ℕ → ℤ
negate zero = pos 0
negate (suc n) = negsuc n

abbrev with_sign : Bool → Option ℕ → Option ℤ
with_sign minus none = none
with_sign true (some n) = some (negate n)
with_sign false (some n) = some (pos n)

abbrev signed : Text → Option ℤ
signed [] = none
signed (c ∷ s) =
    if c == b'-'
    then with_sign true (within_limit (all_digits s))
    else if c == b'+'
    then with_sign false (within_limit (all_digits s))
    else with_sign false (within_limit (all_digits (c ∷ s)))

-- `int(text)`, where `none` is a `ValueError`
unfoldable pub int_of_text : Text → Option ℤ
unfolding skip_space all_digits
int_of_text s = signed (skip_space s)

-- `abs(a - b)`
abbrev pub distance : ℤ → ℤ → ℕ
distance (pos a) (pos b) = (a - b) + (b - a)
distance (pos a) (negsuc b) = a + b + 1
distance (negsuc a) (pos b) = a + b + 1
distance (negsuc a) (negsuc b) = (a - b) + (b - a)

abbrev pub default_max_age_seconds : ℕ
default_max_age_seconds = 300

-- `hmac.new(key, message, hashlib.sha256).hexdigest()`
abbrev pub Hmac : Type 0
Hmac = (key message : List ℕ) → Text

module _ (hmac : Hmac) where
  -- The header that goes with this secret, timestamp and body.
  unfoldable pub expected_signature : Text → Text → List ℕ → Text
  unfolding utf8
  expected_signature secret timestamp body =
      text "v0=" ++ hmac (utf8 secret) (utf8 (text "v0:" ++ (timestamp ++ text ":")) ++ body)

  -- A header whose text does not encode in latin-1 is refused; what does is compared byte by byte.
  unfoldable pub is_expected : Text → Text → List ℕ → Text → Bool
  unfolding expected_signature
  is_expected secret timestamp body signature =
      all (λ c. ltb c 256) signature && text_eq (expected_signature secret timestamp body) signature

  abbrev pub is_recent : ℤ → ℕ → Option ℤ → Bool
  is_recent now max_age none = false
  is_recent now max_age (some request_time) = not (ltb max_age (distance now request_time))

  abbrev pub signed_with : Text → Text → List ℕ → Text → ℤ → ℕ → Bool
  signed_with secret timestamp body signature now max_age =
      if is_recent now max_age (int_of_text timestamp)
      then is_expected secret timestamp body signature
      else false

  unfoldable pub verify_slack_signature :
      Option Text → Option Text → List ℕ → Option Text → ℤ → ℕ → Bool
  unfolding int_of_text is_expected
  verify_slack_signature (some secret) (some timestamp) body (some signature) now max_age =
      if is_given (some secret) && (is_given (some timestamp) && is_given (some signature))
      then signed_with secret timestamp body signature now max_age
      else false
  verify_slack_signature secret timestamp body signature now max_age = false

  -- `verify_slack_request`
  unfoldable pub verify_slack_request :
      Option Text → Option Text → Option Text → ℤ → List ℕ → Exec (Unit {0})
  unfolding verify_slack_signature
  verify_slack_request secret timestamp signature now body =
      if verify_slack_signature secret timestamp body signature now default_max_age_seconds
      then pure tt
      else throw (Exception.http_exception 401 (text "Invalid Slack signature"))
