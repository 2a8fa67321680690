-- ===== src/Request/Admit.antt =====
-- routers/request.py: the two refusals that precede the parsing, the User-Agent gate and the ban
-- check.
use request_o_matic.Base.{
  Bool, true, false, not, ◌&&◌, ◌||◌, Option, none, some, [], ◌∷◌, length, take, if◌then◌else◌,
}
use request_o_matic.BanCheck.{BanCheckResult, check}
use request_o_matic.Exec.{
  Exception, Result, ok, raised, Call, Properties, Exec, pure, throw, attempt, ◌>>=◌, ◌>>◌, deliver,
  when,
}
use request_o_matic.Json.{null, string, natural, optional}
use request_o_matic.Request.{Incoming, Services, bounded_user_agent}
use request_o_matic.Text.{Text, text, is_given}
use request_o_matic.UaGate.{is_known_strict_client}

abbrev pub blocked : Exception
blocked = Exception.http_exception 403 (text "Request blocked")

-- A capture whose failure is swallowed.
unfoldable pub capture_quietly : Text → Properties → Exec (Unit {0})
capture_quietly event properties =
    attempt (deliver (Call.capture event properties)) >>= λ outcome. pure tt

abbrev pub ua_gate_ban_reason : Option Text → Text
ua_gate_ban_reason none = text "ua_gate_missing_fingerprint"
ua_gate_ban_reason (some raw) = text "ua_gate_malformed_fingerprint"

abbrev header_shape : Option Text → Properties
header_shape none = []
header_shape (some raw) =
    (text "fingerprint_prefix", string (take 8 raw))
    ∷ (text "fingerprint_length", natural (length raw))
    ∷ []

unfoldable pub gate_properties : Incoming → Properties
gate_properties rq =
    (text "user_id", null)
    ∷ (text "fingerprint", null)
    ∷ (text "ban_reason", string (ua_gate_ban_reason rq.x_device_fingerprint))
    ∷ (text "ban_source", string (text "rom_strict_mode"))
    ∷ (text "user_agent", optional (bounded_user_agent rq.user_agent))
    ∷ header_shape rq.x_device_fingerprint

unfoldable pub is_gated : Services → Incoming → Option Text → Bool
is_gated sv rq normalized =
    sv.strict_fingerprint_for_known_clients
    && (not (is_given normalized) && is_known_strict_client rq.user_agent)

unfoldable pub ua_gate : Services → Incoming → Option Text → Exec (Unit {0})
unfolding capture_quietly
ua_gate sv rq normalized = when (is_gated sv rq normalized) (
    when sv.posthog (capture_quietly (text "request_blocked") (gate_properties rq))
    >> throw blocked)

unfoldable pub ban_properties : BanCheckResult → Properties
ban_properties r =
    (text "user_id", r.user_id)
    ∷ (text "fingerprint", r.fingerprint)
    ∷ (text "ban_reason", r.ban_reason)
    ∷ (text "ban_source", r.ban_source)
    ∷ []

unfoldable pub refuse_banned : Services → BanCheckResult → Exec Bool
unfolding capture_quietly
refuse_banned sv r =
    if r.banned
    then (when sv.posthog (capture_quietly (text "request_blocked") (ban_properties r))
        >> throw blocked)
    else pure false

-- The `try` around the call: only the client's own exception lets the request pass.
unfoldable pub after_ban_check : Services → Result BanCheckResult → Exec Bool
unfolding refuse_banned
after_ban_check sv (ok r) = refuse_banned sv r
after_ban_check sv (raised Exception.ban_check_unavailable) = pure true
after_ban_check sv (raised e) = throw e

-- Gives `ban_check_degraded`, or refuses.
unfoldable pub ban_gate : Services → Incoming → Option Text → Exec Bool
unfolding after_ban_check
ban_gate sv rq normalized =
    if sv.ban_check_client && (is_given rq.authorization || is_given normalized)
    then (attempt (check rq.authorization normalized) >>= after_ban_check sv)
    else pure false

unfoldable pub admit : Services → Incoming → Option Text → Exec Bool
unfolding ua_gate ban_gate
admit sv rq normalized = ua_gate sv rq normalized >> ban_gate sv rq normalized
