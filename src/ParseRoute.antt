-- ===== src/ParseRoute.antt =====
-- routers/parse.py: `POST /parse`, the parser behind a route of its own.
pub mod Told
use request_o_matic.Base.{Bool, Option, [], is_nil, if◌then◌else◌}
use request_o_matic.Exec.{Exception, Result, ok, raised, Exec, pure, throw, lift, attempt, ◌>>=◌}
use request_o_matic.Metadata.{ParsedRequest}
use request_o_matic.Parser.{Library, parse_request}
use request_o_matic.Providers.{Settings, get_groq_client}
use request_o_matic.Text.{Text, text, strip}

-- The handlers of the `try`. The detail of the second is the text of the exception.
unfoldable pub after_parsing : Result ParsedRequest → Exec ParsedRequest
after_parsing (ok result) = pure result
after_parsing (raised Exception.rate_limit_error) =
    throw (Exception.http_exception 429 (text "Rate limit exceeded, please retry"))
after_parsing (raised Exception.value_error) =
    throw (Exception.http_exception_from 500 [] Exception.value_error)
after_parsing (raised e) = throw (Exception.http_exception 500 (text "Internal server error"))

module _ (library : Library) where
  unfoldable pub parse : Text → Exec ParsedRequest
  unfolding after_parsing
  parse message =
      if is_nil (strip message)
      then throw (Exception.http_exception 400 (text "Message cannot be empty"))
      else (attempt (parse_request library message) >>= after_parsing)

  -- The route: without a key of Groq's, no handler is reached.
  unfoldable pub post_parse : Settings → Text → Exec ParsedRequest
  unfolding parse get_groq_client
  post_parse settings message = lift (get_groq_client settings) >>= λ key. parse message
