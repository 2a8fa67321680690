-- ===== src/Request/Blocked.antt =====
-- When a request is refused with 403, and what has been called by then.
use request_o_matic.Base.{
  ◌≡◌, refl, sym, subst, ◌∙◌, ap, ◌⊎◌, Bool, true, false, Option, List, [], ◌∷◌, arith, Bool-cases,
  Option-cases, inl, inr, ◌&&◌, ◌||◌, All, ◌≢◌,
}
use request_o_matic.BanCheck.{
  BanCheckResult, check, ban_check_headers, read_reply, read_response, read_ban_check,
}
use request_o_matic.Exec.{Call, World, Result, ok, raised, Exception, Response}
use request_o_matic.Exec.Ensures.{Outcome, Anything}
use request_o_matic.Fingerprint.{normalize_fingerprint}
use request_o_matic.Json.{Json, null, boolean, number, string, array, object, get}
use request_o_matic.Request.{Incoming, Services}
use request_o_matic.Request.Admit.{blocked, is_gated, ua_gate, ban_gate, admit, after_ban_check}
use request_o_matic.Request.Foreign.{NotHttp, IsForeign}
use request_o_matic.Text.{Text, text, is_given}

-- A call that tells neither Groq nor the search nor Slack of the request.
abbrev pub is_quiet : Call → Bool
is_quiet (Call.ban_check headers) = true
is_quiet (Call.capture event properties) = true
is_quiet c = false

abbrev pub IsQuiet : Call → Type 0
IsQuiet c = is_quiet c ≡ true

ok≢raised : {A : Type 0} {a : A} {e : Exception} → ok a ≢ raised e
ok≢raised h = ground (arith, h)

module _ (w : World) (sv : Services) (rq : Incoming) (normalized : Option Text) where
  -- Whether Backend-Service is asked, and what its reply amounts to.
  abbrev pub is_asked : Bool
  is_asked = sv.ban_check_client && (is_given rq.authorization || is_given normalized)

  abbrev pub verdict : Result BanCheckResult
  verdict = read_reply (w.http [] (Call.ban_check (ban_check_headers rq.authorization normalized)))

  abbrev pub IsBanned : Type 0
  IsBanned = (r : BanCheckResult) × (verdict ≡ ok r) × (r.banned ≡ true)

  -- The User-Agent gate closes, or Backend-Service is asked and says that the caller is banned.
  abbrev pub IsRefused : Type 0
  IsRefused =
      (is_gated sv rq normalized ≡ true)
      ⊎ ((is_gated sv rq normalized ≡ false) × (is_asked ≡ true) × IsBanned)

  admit_gated :
      is_gated sv rq normalized ≡ true
      → ((admit sv rq normalized w []).0 ≡ raised blocked)
        × All IsQuiet (admit sv rq normalized w []).1
  unfolding admit ua_gate
  admit_gated h = ground arith

  pub admit_open :
      is_gated sv rq normalized ≡ false
      → admit sv rq normalized w [] ≡ ban_gate sv rq normalized w []
  unfolding admit ua_gate
  admit_open h = rw h

  ban_gate_skip : is_asked ≡ false → ban_gate sv rq normalized w [] ≡ (ok false, [])
  unfolding ban_gate
  ban_gate_skip h = rw h

  pub ban_gate_ask :
      is_asked ≡ true
      → normalize_fingerprint normalized ≡ normalized
      → ban_gate sv rq normalized w []
        ≡ after_ban_check sv verdict w
            (Call.ban_check (ban_check_headers rq.authorization normalized) ∷ [])
  unfolding ban_gate check
  ban_gate_ask h e =
      let given : (is_given rq.authorization || is_given normalized) ≡ true = ground arith in
      rw (h, e, given)

  after_ban_check-blocked :
      (v : Result BanCheckResult) (calls : List Call)
      → Outcome NotHttp Anything v
      → (after_ban_check sv v w calls).0 ≡ raised blocked
      → (r : BanCheckResult) × (v ≡ ok r) × (r.banned ≡ true)
  unfolding after_ban_check
  after_ban_check-blocked (ok r) calls f h = (r, refl, ground arith)
  after_ban_check-blocked (raised e) calls f h = absurd (ground arith)

  after_ban_check-banned :
      (r : BanCheckResult) (calls : List Call)
      → r.banned ≡ true
      → (after_ban_check sv (ok r) w calls).0 ≡ raised blocked
  unfolding after_ban_check
  after_ban_check-banned r calls h = ground arith

  after_ban_check-IsQuiet :
      (v : Result BanCheckResult) (calls : List Call)
      → All IsQuiet calls
      → All IsQuiet (after_ban_check sv v w calls).1
  unfolding after_ban_check
  after_ban_check-IsQuiet (ok r) calls h = ground arith
  after_ban_check-IsQuiet (raised e) calls h = ground arith

read_ban_check-Foreign : (body : Json) → Outcome NotHttp Anything (read_ban_check body)
unfolding read_ban_check
read_ban_check-Foreign (object body) = elim (Option-cases (get (text "banned") body)) [
  | inl missing ↦ ground (arith, missing)
  | inr (v, found) ↦ ground (arith, found)
]
read_ban_check-Foreign (array vs) = ground arith
read_ban_check-Foreign (string s) = ground arith
read_ban_check-Foreign null = refl
read_ban_check-Foreign (boolean b) = refl
read_ban_check-Foreign (number n d) = refl

read_response-Foreign : (r : Response) → Outcome NotHttp Anything (read_response r)
unfolding read_response
read_response-Foreign r = elim (Option-cases r.json) [
  | inl missing ↦ rw (missing) (ground arith)
  | inr (body, found) ↦ rw (found) (ground (arith, read_ban_check-Foreign body))
]

read_reply-Foreign :
    (r : Result Response) → Outcome NotHttp Anything r → Outcome NotHttp Anything (read_reply r)
unfolding read_reply
read_reply-Foreign (ok r) h = read_response-Foreign r
read_reply-Foreign (raised e) h = ground arith

module _ (w : World) (sv : Services) (rq : Incoming) (normalized : Option Text)
    (usable : normalize_fingerprint normalized ≡ normalized) where
  ban_gate-IsBanned :
      is_asked w sv rq normalized ≡ true
      → IsBanned w sv rq normalized
      → (ban_gate sv rq normalized w []).0 ≡ raised blocked
  ban_gate-IsBanned asked (r, is_r, banned) =
      ap (λ p. p.0) (ban_gate_ask w sv rq normalized asked usable)
      ∙ (ap
            (λ v.
              (after_ban_check sv v w
                (Call.ban_check (ban_check_headers rq.authorization normalized) ∷ [])).0)
            is_r
          ∙ after_ban_check-banned w sv rq normalized r _ banned)

  pub admit-IsRefused :
      IsRefused w sv rq normalized → (admit sv rq normalized w []).0 ≡ raised blocked
  admit-IsRefused (inl gated) = (admit_gated w sv rq normalized gated).0
  admit-IsRefused (inr (open_gate, asked, banned)) =
      ap (λ p. p.0) (admit_open w sv rq normalized open_gate) ∙ ban_gate-IsBanned asked banned

  ban_gate-IsQuiet : All IsQuiet (ban_gate sv rq normalized w []).1
  ban_gate-IsQuiet = elim (Bool-cases (is_asked w sv rq normalized)) [
    | inl asked ↦
        subst (λ p. All IsQuiet p.1) (sym (ban_gate_ask w sv rq normalized asked usable))
          (after_ban_check-IsQuiet w sv rq normalized _ _ (refl, tt))
    | inr skipped ↦ subst (λ p. All IsQuiet p.1) (sym (ban_gate_skip w sv rq normalized skipped)) tt
  ]

  pub admit-IsQuiet : All IsQuiet (admit sv rq normalized w []).1
  admit-IsQuiet = elim (Bool-cases (is_gated sv rq normalized)) [
    | inl gated ↦ (admit_gated w sv rq normalized gated).1
    | inr open_gate ↦
        subst (λ p. All IsQuiet p.1) (sym (admit_open w sv rq normalized open_gate))
          ban_gate-IsQuiet
  ]

  module _ (foreign : IsForeign w) where
    ban_gate-blocked :
        (ban_gate sv rq normalized w []).0 ≡ raised blocked
        → (is_asked w sv rq normalized ≡ true) × IsBanned w sv rq normalized
    ban_gate-blocked h = elim (Bool-cases (is_asked w sv rq normalized)) [
      | inl asked ↦ (
        asked,
        after_ban_check-blocked w sv rq normalized (verdict w sv rq normalized) _
            (read_reply-Foreign _ (foreign.http_foreign [] _))
            (ap (λ p. p.0) (sym (ban_gate_ask w sv rq normalized asked usable)) ∙ h),
      )
      | inr skipped ↦
          absurd (ok≢raised (ap (λ p. p.0) (sym (ban_gate_skip w sv rq normalized skipped)) ∙ h))
    ]

    pub admit-blocked :
        (admit sv rq normalized w []).0 ≡ raised blocked → IsRefused w sv rq normalized
    admit-blocked h = elim (Bool-cases (is_gated sv rq normalized)) [
      | inl gated ↦ inl gated
      | inr open_gate ↦
          let (asked, banned) =
            ban_gate-blocked (ap (λ p. p.0) (sym (admit_open w sv rq normalized open_gate)) ∙ h) in
          inr (open_gate, asked, banned)
    ]
