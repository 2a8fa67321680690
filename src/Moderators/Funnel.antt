-- ===== src/Moderators/Funnel.antt =====
-- services/moderator_client.py: every failure of a roster call is the client's one exception.
use request_o_matic.Base.{
  ◌≡◌, refl, true, Option, List, Bool-cases, Option-cases, inl, inr, between, all,
}
use request_o_matic.Exec.{
  Call, Exec, World, Result, ok, raised, Exception, Response, resume, lift, ◌>>=◌,
}
use request_o_matic.Exec.Ensures.{Outcome, Anything}
use request_o_matic.Exec.Httpx.{IsHttpx, IsSendError}
use request_o_matic.BanCheck.Caught.{is_network_error-IsHttpError}
use request_o_matic.Moderators.{
  ModeratorClient, list_moderators, replace_moderators, read_roster, is_unreachable, safe_json,
  extract_ids, headers, put_roster, replace_payload, body_ids, normalize_slack_user_ids,
}
use request_o_matic.Moderators.Roster.{IsClientError, extract_ids_outcome, is_usable}
use request_o_matic.Json.{Json}
use request_o_matic.Text.{Text}

-- The client's `except` names everything that httpx documents.
is_unreachable-IsSendError : (e : Exception) → IsSendError e → is_unreachable e ≡ true
unfolding is_unreachable
is_unreachable-IsSendError Exception.invalid_url h = refl
is_unreachable-IsSendError Exception.value_error h = refl
is_unreachable-IsSendError e h = is_network_error-IsHttpError e h

abbrev pub Refuses : {A : Type 0} → Result A → Type 0
Refuses r = Outcome IsClientError Anything r

forget : {A : Type 0} (Q : A → Type 0) (r : Result A) → Outcome IsClientError Q r → Refuses r
forget Q (ok a) h = tt
forget Q (raised e) h = h

safe_json-Refuses : (r : Response) → Refuses (safe_json r)
unfolding safe_json
safe_json-Refuses r = elim (Option-cases r.json) [
  | inl missing ↦ rw missing tt
  | inr (body, there) ↦ rw there tt
]

module _ (c : ModeratorClient) where
  body_ids-Refuses : (r : Result Json) → Refuses r → Refuses (body_ids c r)
  body_ids-Refuses (ok body) h = forget _ (extract_ids body) (extract_ids_outcome body)
  body_ids-Refuses (raised e) h = h

  pub read_roster-Refuses :
      (r : Result Response) → Outcome IsSendError Anything r → Refuses (read_roster c r)
  unfolding read_roster
  read_roster-Refuses (ok r) h = elim (Bool-cases (between 200 299 r.status)) [
    | inl success ↦ rw success (body_ids-Refuses (safe_json r) (safe_json-Refuses r))
    | inr failure ↦ rw failure tt
  ]
  read_roster-Refuses (raised e) h = rw (is_unreachable-IsSendError e h) tt

  module _ {w : World} (httpx : IsHttpx w) (calls : List Call) where
    pub list_moderators-Refuses : Refuses (list_moderators c w calls).0
    unfolding list_moderators
    list_moderators-Refuses =
        read_roster-Refuses (w.http calls (Call.roster_get (headers c)))
          (httpx.http_raises calls (Call.roster_get (headers c)))

    put_roster-Refuses :
        (wanted expected : List Text) (actor : Option Text)
        → Refuses (put_roster c wanted expected actor w calls).0
    unfolding put_roster
    put_roster-Refuses wanted expected actor =
        let call = Call.roster_put (headers c) (replace_payload c wanted expected actor) in
        read_roster-Refuses (w.http calls call) (httpx.http_raises calls call)

    resume-Refuses :
        {A B : Type 0} (r : Result A) (f : A → Exec B)
        → Refuses r
        → ((a : A) → Refuses (f a w calls).0)
        → Refuses (resume f w r calls).0
    resume-Refuses (ok a) f h k = k a
    resume-Refuses (raised e) f h k = h

    normalized-Refuses :
        (user_ids : List Text) → Refuses (normalize_slack_user_ids c.upper user_ids)
    unfolding normalize_slack_user_ids
    normalized-Refuses user_ids = elim (Bool-cases (all is_usable user_ids)) [
      | inl given ↦ rw given tt
      | inr malformed ↦ rw malformed tt
    ]

    -- Neither call of the client ends in any exception but the client's own, as long as httpx raises an
    -- `HTTPError`, an `InvalidURL` or a `ValueError`: whatever the status, the body and its shape.
    pub roster_calls_funnel :
        (user_ids expected_current : List Text) (actor : Option Text)
        → Refuses (list_moderators c w calls).0
          × Refuses (replace_moderators c user_ids expected_current actor w calls).0
    unfolding replace_moderators
    roster_calls_funnel user_ids expected_current actor = (
      list_moderators-Refuses,
      resume-Refuses (normalize_slack_user_ids c.upper user_ids)
          (λ wanted. lift (normalize_slack_user_ids c.upper expected_current) >>= λ expected.
            put_roster c wanted expected actor)
          (normalized-Refuses user_ids)
          (λ wanted.
            resume-Refuses (normalize_slack_user_ids c.upper expected_current)
              (λ expected. put_roster c wanted expected actor) (normalized-Refuses expected_current)
              (λ expected. put_roster-Refuses wanted expected actor)),
    )
