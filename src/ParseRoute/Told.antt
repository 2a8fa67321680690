-- ===== src/ParseRoute/Told.antt =====
-- routers/parse.py: what a caller is told when a message is not parsed.
use request_o_matic.Base.{◌≡◌, Bool, true, ◌||◌, ◌==◌}
use request_o_matic.Exec.{Exception, Call}
use request_o_matic.Exec.AtMost.{AtMost}
use request_o_matic.Exec.Ensures.{Ensures}
use request_o_matic.Parser.{Library}
use request_o_matic.Text.{Text, text}

-- One of the three statuses of the route.
abbrev pub IsParseError : Exception → Type 0
IsParseError (Exception.http_exception status detail) =
    (status == 400 || (status == 429 || status == 500)) ≡ true
IsParseError (Exception.http_exception_from status detail e) = status ≡ 500
IsParseError e = ⊥

abbrev pub any_call : Call → Bool
any_call c = true

module _ (library : Library) (message : Text) where
  abbrev pub rate_limited : Exception
  rate_limited = Exception.http_exception 429 (text "Rate limit exceeded, please retry")
