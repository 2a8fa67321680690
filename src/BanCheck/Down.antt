-- ===== src/BanCheck/Down.antt =====
-- services/ban_check_client.py: which replies of Backend-Service say nothing about the caller.
use request_o_matic.BanCheck.{
  BanCheckResult, has_item, is_network_error, read_ban_check, read_reply, read_response,
}
use request_o_matic.Base.{
  ◌≡◌, refl, ap, Bool, true, false, not, ◌||◌, ◌==◌, Option, none, some, Option-cases, inl, inr,
  arith, is_some, if◌then◌else◌,
}
use request_o_matic.Exec.{Exception, Response, Result, ok, raised}
use request_o_matic.Exec.Ensures.{Outcome, Anything}
use request_o_matic.Exec.Httpx.{IsSendError}
use request_o_matic.Json.{Json, Items, get, null, boolean, number, string, array, object}
use request_o_matic.Text.{text, text_eq, contains}

-- httpx's `HTTPError` with its subclasses, as httpx documents them.
abbrev pub is_http_error : Exception → Bool
is_http_error (Exception.http_status_error status) = true
is_http_error Exception.connect_error = true
is_http_error Exception.timeout_exception = true
is_http_error Exception.http_error = true
is_http_error e = false

abbrev is_key : Json → Bool
is_key (string s) = text_eq s (text "banned")
is_key v = false

abbrev pub lists_key : Items → Bool
lists_key Items.nil = false
lists_key (Items.item v vs) = is_key v || lists_key vs

-- A body of status 200 without a verdict: no JSON, or a dict, a list or a text without `banned` in it. A
-- number, a Boolean and `null` are none of these, since `in` refuses them.
abbrev pub lacks_verdict : Option Json → Bool
lacks_verdict none = true
lacks_verdict (some (object body)) = not (is_some (get (text "banned") body))
lacks_verdict (some (array vs)) = not (lists_key vs)
lacks_verdict (some (string s)) = not (contains (text "banned") s)
lacks_verdict (some v) = false

abbrev pub is_down : Result Response → Bool
is_down (raised e) = is_http_error e
is_down (ok r) =
    if r.status == 200 then lacks_verdict r.json else not (r.status == 401 || r.status == 404)

-- What the client makes of such a reply: its own exception.
abbrev pub is_unavailable : Result BanCheckResult → Bool
is_unavailable (raised Exception.ban_check_unavailable) = true
is_unavailable r = false

has_item-lists_key : (vs : Items) → has_item (text "banned") vs ≡ lists_key vs
unfolding has_item
has_item-lists_key Items.nil = refl
has_item-lists_key (Items.item (string s) vs) =
    ap (λ b. text_eq s (text "banned") || b) (has_item-lists_key vs)
has_item-lists_key (Items.item v vs) = has_item-lists_key vs

unavailable_if :
    (b : Bool)
    → is_unavailable
        (if b then raised Exception.type_error else raised Exception.ban_check_unavailable)
      ≡ not b
unavailable_if true = refl
unavailable_if false = refl

read_ban_check-lacks_verdict :
    (body : Json) → is_unavailable (read_ban_check body) ≡ lacks_verdict (some body)
unfolding read_ban_check
read_ban_check-lacks_verdict (object body) = elim (Option-cases (get (text "banned") body)) [
  | inl missing ↦ ground (arith, missing)
  | inr (v, found) ↦ ground (arith, found)
]
read_ban_check-lacks_verdict (array vs) = rw (has_item-lists_key vs) (unavailable_if (lists_key vs))
read_ban_check-lacks_verdict (string s) = unavailable_if (contains (text "banned") s)
read_ban_check-lacks_verdict null = refl
read_ban_check-lacks_verdict (boolean b) = refl
read_ban_check-lacks_verdict (number b l) = refl

read_response-is_down : (r : Response) → is_unavailable (read_response r) ≡ is_down (ok r)
unfolding read_response
read_response-is_down r = elim (Option-cases r.json) [
  | inl missing ↦ ground (arith, missing)
  | inr (body, there) ↦ ground (arith, there, read_ban_check-lacks_verdict body)
]

-- The client raises its own exception for exactly these replies.
pub read_reply-is_down :
    (r : Result Response)
    → Outcome IsSendError Anything r
    → is_unavailable (read_reply r) ≡ is_down r
unfolding read_reply is_network_error
read_reply-is_down (ok r) h = read_response-is_down r
read_reply-is_down (raised Exception.ban_check_unavailable) h = absurd h
read_reply-is_down (raised e) h = refl
