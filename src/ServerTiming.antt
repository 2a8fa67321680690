-- ===== src/ServerTiming.antt =====
-- core/server_timing.py: the legs of a peer's Server-Timing header; and of routers/request.py,
-- `_emit_server_timing_header`, which forwards them. Python's floats are a parameter.
pub mod Legs
pub mod Emitted
use mathlib.Core.Option
use request_o_matic.Base.{
  ℕ, Bool, true, false, not, ◌&&◌, ◌||◌, Option, none, some, List, [], ◌∷◌, ◌++◌, ◌==◌, map,
  between, is_nil, all, if◌then◌else◌,
}
use request_o_matic.Exec.{Result, ok, raised}
use request_o_matic.Text.{Text, text, text_eq, is_given, strip, split}
use request_o_matic.Text.Case.{lower}

-- `float(s)`, where `none` is a `ValueError`, `math.isfinite(x)` and `x >= 0`.
pub record Floats : Type 1 where
  pub Float : Type 0
  pub float : Text → Option Float
  pub is_finite : Float → Bool
  pub is_nonnegative : Float → Bool

-- A character of `_TOKEN_RE`.
unfoldable pub is_token_char : ℕ → Bool
is_token_char c =
    between b'A' b'Z' c
    || between b'a' b'z' c
    || between b'0' b'9' c
    || c == b'!'
    || between b'#' b'\'' c
    || between b'*' b'+' c
    || between b'-' b'.' c
    || between b'^' b'`' c
    || c == b'|'
    || c == b'~'

-- `_TOKEN_RE.fullmatch(name)`
unfoldable pub is_token : Text → Bool
unfolding is_token_char
is_token name = not (is_nil name) && all is_token_char name

-- `s.partition(sep)` on one character; `none` is the empty separator of a text without it.
unfoldable pub partition : ℕ → Text → Option (Text × Text)
partition sep [] = none
partition sep (c ∷ s) =
    let rest = Option.map (λ kv. (c ∷ kv.0, kv.1)) (partition sep s) in
    if c == sep then some ([], s) else rest

abbrev pub is_dur : Text → Bool
is_dur key = text_eq (lower (strip key)) (text "dur")

-- The key that a leg is forwarded under.
unfoldable pub emitted_key : Text → Text
emitted_key name = if text_eq name (text "total") then text "lml_total" else name

-- `key in telemetry.steps`
unfoldable pub is_step : Text → List Text → Bool
is_step key [] = false
is_step key (s ∷ steps) = text_eq s key || is_step key steps

module _ (fl : Floats) where
  open fl use {Float, float, is_finite, is_nonnegative}

  abbrev pub Legs : Type 0
  Legs = List (Text × Float)

  -- A duration that can be sent again.
  abbrev pub sendable : Option Float → Option Float
  sendable none = none
  sendable (some d) = if is_finite d && is_nonnegative d then some d else none

  -- What one parameter says, or else those after it do. A `dur` ends the search, readable or not.
  abbrev pub dur_or : Option (Text × Text) → Option Float → Option Float
  dur_or none rest = rest
  dur_or (some (key, value)) rest = if is_dur key then sendable (float (strip value)) else rest

  unfoldable pub duration : List Text → Option Float
  unfolding partition
  duration [] = none
  duration (param ∷ params) = dur_or (partition b'=' param) (duration params)

  abbrev pub named : Text → Option Float → Option (Text × Float)
  named name none = none
  named name (some d) = some (name, d)

  -- The parts of an entry between semicolons, of which the first is the name.
  unfoldable pub read_parts : List Text → Option (Text × Float)
  unfolding is_token duration
  read_parts [] = none
  read_parts (name ∷ params) =
      if is_token (strip name) then named (strip name) (duration params) else none

  unfoldable pub read_entry : Text → Option (Text × Float)
  unfolding read_parts
  read_entry raw = if is_nil (strip raw) then none else read_parts (split b';' (strip raw))

  abbrev pub cons_given : Option (Text × Float) → Legs → Legs
  cons_given none legs = legs
  cons_given (some leg) legs = leg ∷ legs

  unfoldable pub read_entries : List Text → Legs
  unfolding read_entry
  read_entries [] = []
  read_entries (raw ∷ entries) = cons_given (read_entry raw) (read_entries entries)

  unfoldable pub parse_server_timing : Option Text → Legs
  unfolding read_entries
  parse_server_timing none = []
  parse_server_timing (some header) = if is_nil header then [] else read_entries (split b',' header)

  -- `extra[key] = dur` on a dict, which keeps the place of a key that it has.
  unfoldable pub assign : Text → Float → Legs → Legs
  assign key d [] = (key, d) ∷ []
  assign key d ((k, e) ∷ extra) =
      let rest = assign key d extra in if text_eq k key then (k, d) ∷ extra else (k, e) ∷ rest

  -- The loop over the legs.
  unfoldable pub forward : List Text → Legs → Legs → Legs
  unfolding emitted_key assign is_step
  forward steps extra [] = extra
  forward steps extra ((name, d) ∷ legs) =
      forward steps
        (if is_step (emitted_key name) steps then extra else assign (emitted_key name) d extra) legs

  -- `extra or None`
  abbrev pub or_none : Legs → Option Legs
  or_none [] = none
  or_none (leg ∷ legs) = some (leg ∷ legs)

  abbrev pub header_of : Result Text → Option Text
  header_of (ok header) = some header
  header_of (raised e) = none

  -- What the header is set to, if it is. `as_server_timing` is that of the telemetry, whose steps are
  -- given; a failure of it is swallowed.
  unfoldable pub emit_server_timing_header :
      List Text → (Option Legs → Result Text) → Bool → Option Text → Option Text
  unfolding forward parse_server_timing
  emit_server_timing_header steps as_server_timing enabled lml_server_timing =
      if enabled
      then header_of
          (as_server_timing (or_none (forward steps [] (parse_server_timing lml_server_timing))))
      else none
