-- ===== src/Exec/Httpx.antt =====
-- What a call of httpx raises, from httpx's own documentation: independent of what the program catches.
use request_o_matic.Exec.{Call, Exception, World}
use request_o_matic.Exec.Ensures.{Outcome, Anything}
use request_o_matic.Base.{List}

-- `HTTPError` and its subclasses: a status that `raise_for_status` refuses, a connection that fails, a
-- time-out, and every other failure of the transport.
abbrev pub IsHttpError : Exception → Type 0
IsHttpError (Exception.http_status_error status) = Unit {0}
IsHttpError Exception.connect_error = Unit
IsHttpError Exception.timeout_exception = Unit
IsHttpError Exception.http_error = Unit
IsHttpError e = ⊥

-- What stops a request before it is sent: `InvalidURL`, which is no `HTTPError`, for a URL that cannot
-- be parsed, and Python's `ValueError` where a part of the request cannot be encoded.
abbrev pub IsUnsent : Exception → Type 0
IsUnsent Exception.invalid_url = Unit {0}
IsUnsent Exception.value_error = Unit
IsUnsent e = ⊥

-- Either of them.
abbrev pub IsSendError : Exception → Type 0
IsSendError Exception.invalid_url = Unit {0}
IsSendError Exception.value_error = Unit
IsSendError e = IsHttpError e

-- httpx raises what it documents.
pub record IsHttpx (w : World) : Type 0 where
  pub http_raises : (calls : List Call) (c : Call) → Outcome IsSendError Anything (w.http calls c)

-- Every request can be made up, so that httpx raises an `HTTPError` or nothing.
pub record IsNetwork (w : World) : Type 0 where
  pub http_raises : (calls : List Call) (c : Call) → Outcome IsHttpError Anything (w.http calls c)
