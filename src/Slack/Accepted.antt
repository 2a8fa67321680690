-- ===== src/Slack/Accepted.antt =====
-- core/dependencies.py: a method of the Slack service succeeds exactly when Slack accepts.
use request_o_matic.Base.{
  ℕ, ◌≡◌, refl, Bool, true, false, ◌&&◌, Option, none, some, List, [], ◌∷◌, between, arith,
  Option-cases, Bool-cases, inl, inr,
}
use request_o_matic.Exec.{
  Call, Exec, Response, Result, ok, raised, World, pure, resume, ◌>>=◌, ◌>>◌,
}
use request_o_matic.Json.{
  Json, null, boolean, number, string, array, object, obj, arr, get, is_true,
}
use request_o_matic.Slack.Service.{
  raise_for_status, decoded, require_ok, call_api, open_view, update_message, delete_message,
  post_ephemeral,
}
use request_o_matic.Text.{Text, text}

abbrev pub succeeds : {A : Type 0} → Result A → Bool
succeeds (ok a) = true
succeeds (raised e) = false

abbrev pub says_ok : Option Json → Bool
says_ok (some (object body)) = elim (get (text "ok") body) [ none ↦ false | some v ↦ is_true v ]
says_ok v = false

-- A status of success, and a JSON object whose `ok` is true.
abbrev pub is_accepted : Result Response → Bool
is_accepted (ok r) = between 200 299 r.status && says_ok r.json
is_accepted (raised e) = false

module _ (w : World) (calls : List Call) where
  -- What Slack answered to the newest call.
  abbrev pub is_answered : List Call → Bool
  is_answered [] = false
  is_answered (c ∷ earlier) = is_accepted (w.http calls c)

  -- The outcome follows that answer.
  abbrev pub IsFaithful : {A : Type 0} → Exec A → Type 0
  IsFaithful m = succeeds (m w calls).0 ≡ is_answered (m w calls).1

module _ (w : World) (method : Text) (channel : Option Json) where
  abbrev read_body : Json → Exec Json
  read_body body = require_ok method channel body >> pure body

  read_body-succeeds :
      (body : Json) (calls : List Call)
      → (succeeds (read_body body w calls).0 ≡ says_ok (some body))
        × ((read_body body w calls).1 ≡ calls)
  unfolding require_ok
  read_body-succeeds (object body) calls = elim (Option-cases (get (text "ok") body)) [
    | inl missing ↦ ground (arith, missing)
    | inr (v, there) ↦ ground (arith, there)
  ]
  read_body-succeeds null calls = (refl, refl)
  read_body-succeeds (boolean b) calls = (refl, refl)
  read_body-succeeds (number n d) calls = (refl, refl)
  read_body-succeeds (string s) calls = (refl, refl)
  read_body-succeeds (array vs) calls = (refl, refl)

  abbrev read : Response → Exec Json
  read response = raise_for_status response >> (decoded response >>= read_body)

  read-succeeds :
      (status : ℕ) (json : Option Json) (body_text : Text) (server_timing : Option Text)
      (calls : List Call)
      → (succeeds
            (read
              (record {
                status = status;
                json = json;
                body_text = body_text;
                server_timing = server_timing;
              })
              w
              calls).0
          ≡ (between 200 299 status && says_ok json))
        × ((read
              (record {
                status = status;
                json = json;
                body_text = body_text;
                server_timing = server_timing;
              })
              w
              calls).1
            ≡ calls)
  unfolding raise_for_status
  read-succeeds status none body_text server_timing calls =
      elim (Bool-cases (between 200 299 status)) [
        | inl h ↦ rw h (refl, refl)
        | inr h ↦ rw h (refl, refl)
      ]
  read-succeeds status (some body) body_text server_timing calls =
      elim (Bool-cases (between 200 299 status)) [
        | inl h ↦ rw h (read_body-succeeds body calls)
        | inr h ↦ rw h (refl, refl)
      ]

  resume-read :
      (r : Result Response) (calls : List Call)
      → (succeeds (resume read w r calls).0 ≡ is_accepted r) × ((resume read w r calls).1 ≡ calls)
  resume-read (ok r) calls = read-succeeds r.status r.json r.body_text r.server_timing calls
  resume-read (raised e) calls = (refl, refl)

  call_api-succeeds :
      (payload : Json) (calls : List Call) → IsFaithful w calls (call_api method payload channel)
  unfolding call_api
  call_api-succeeds payload calls =
      let sent = Call.slack_api method payload in
      let (succeeded, later) = resume-read (w.http calls sent) (sent ∷ calls) in rw later succeeded

resume_ignored :
    (w : World) (calls : List Call) (r : Result Json) (later : List Call)
    → succeeds r ≡ is_answered w calls later
    → succeeds (resume (λ body. pure tt) w r later).0
      ≡ is_answered w calls (resume (λ body. pure tt) w r later).1
resume_ignored w calls (ok body) later h = h
resume_ignored w calls (raised e) later h = h

ignored-succeeds :
    (w : World) (calls : List Call) (method : Text) (channel : Option Json) (payload : Json)
    → IsFaithful w calls (call_api method payload channel >>= λ body. pure tt)
ignored-succeeds w calls method channel payload =
    resume_ignored w calls (call_api method payload channel w calls).0 _
      (call_api-succeeds w method channel payload calls)

-- The four methods that open, change, delete and whisper return exactly when Slack answered their call
-- with a status of success and a JSON object whose `ok` is true, and raise otherwise: an
-- `{"ok": false}` with status 200 is never taken for a success.
pub methods_accepted :
    (w : World) (calls : List Call) (a b t : Text) (channel ts view : Json) (blocks : List Json)
    → IsFaithful w calls (open_view a view)
      × (IsFaithful w calls (update_message channel ts blocks)
          × (IsFaithful w calls (delete_message channel ts)
              × IsFaithful w calls (post_ephemeral channel b t)))
unfolding open_view update_message delete_message post_ephemeral
methods_accepted w calls a b t channel ts view blocks = (
  ignored-succeeds w calls (text "views.open") none
      (obj ((text "trigger_id", string a) ∷ (text "view", view) ∷ [])),
  (
    ignored-succeeds w calls (text "chat.update") (some channel) (
        obj (
          (text "channel", channel)
          ∷ (text "ts", ts)
          ∷ (text "blocks", arr blocks)
          ∷ (text "unfurl_links", boolean false)
          ∷ (text "unfurl_media", boolean false)
          ∷ [])),
    (
      ignored-succeeds w calls (text "chat.delete") (some channel)
          (obj ((text "channel", channel) ∷ (text "ts", ts) ∷ [])),
      ignored-succeeds w calls (text "chat.postEphemeral") (some channel) (
          obj ((text "channel", channel) ∷ (text "user", string b) ∷ (text "text", string t) ∷ [])),
    ),
  ),
)
