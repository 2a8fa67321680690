-- ===== src/BanCheck/Caught.antt =====
-- services/ban_check_client.py: `except httpx.HTTPError` against httpx's documentation.
use request_o_matic.BanCheck.{is_network_error}
use request_o_matic.Base.{◌≡◌, refl, true}
use request_o_matic.Exec.{Exception}
use request_o_matic.Exec.Httpx.{IsHttpError}

-- It catches every class below `HTTPError`.
pub is_network_error-IsHttpError : (e : Exception) → IsHttpError e → is_network_error e ≡ true
unfolding is_network_error
is_network_error-IsHttpError (Exception.http_status_error status) h = refl
is_network_error-IsHttpError Exception.connect_error h = refl
is_network_error-IsHttpError Exception.timeout_exception h = refl
is_network_error-IsHttpError Exception.http_error h = refl
is_network_error-IsHttpError e h = absurd h
