-- ===== src/Interactivity/Guarded.antt =====
-- routers/slack_interactivity.py: what a callback of someone who is not authorized may do.
use request_o_matic.Authorization.{AuthorizedUsers, resolve_authorized_users, after_roster}
use request_o_matic.Base.{
  ℕ, ◌+◌, ◌≤◌, ◌≡◌, refl, Bool, true, false, Option, none, some, List, arith, Bool-cases, inl, inr,
}
use request_o_matic.Exec.{Call, Exec, World, Result, ok, raised, Severity, resume, ◌>>=◌}
use request_o_matic.Exec.AtMost.{
  AtMost, count, AtMost->>=, AtMost-attempt, AtMost-pure, AtMost-when,
}
use request_o_matic.Exec.Ensures.{Outcome, Anything}
use request_o_matic.Interactivity.{notify_slack, after_notify, is_swallowed}
use request_o_matic.Interactivity.Click.{tell}
use request_o_matic.Slack.Calls.{call_api-AtMost_any}
use request_o_matic.Json.{Json, string}
use request_o_matic.Moderators.{ModeratorClient, list_moderators}
use request_o_matic.Slack.Service.{post_ephemeral, update_message}
use request_o_matic.Text.{Text, text, text_eq}

-- A ban, a change of the roster, or a modal.
abbrev pub is_guarded_call : Call → Bool
is_guarded_call (Call.ban_post headers payload) = true
is_guarded_call (Call.roster_put headers payload) = true
is_guarded_call (Call.slack_api method payload) = text_eq (text "views.open") method
is_guarded_call c = false

abbrev pub Unguarded : {A : Type 0} → Exec A → Type 0
Unguarded m = AtMost is_guarded_call 0 m

list_moderators-Unguarded : (c : ModeratorClient) → Unguarded (list_moderators c)
unfolding list_moderators
list_moderators-Unguarded c = record { at = λ w calls. omega arith }

after_roster-Unguarded :
    (environment : List Text) (r : Result (List Text)) → Unguarded (after_roster environment r)
unfolding after_roster
after_roster-Unguarded environment (ok stored) = record { at = λ w calls. omega arith }
after_roster-Unguarded environment (raised e) = record { at = λ w calls. ground arith }

pub resolve-Unguarded :
    (client : Option ModeratorClient) (csv : Option Text)
    → Unguarded (resolve_authorized_users client csv)
unfolding resolve_authorized_users
resolve-Unguarded none csv = record { at = λ w calls. omega arith }
resolve-Unguarded (some c) csv =
    AtMost->>= 0 0 _ _ (AtMost-attempt _ (list_moderators-Unguarded c)) (after_roster-Unguarded _)

post_ephemeral-Unguarded :
    (channel : Json) (user message : Text) → Unguarded (post_ephemeral channel user message)
unfolding post_ephemeral text_eq text
post_ephemeral-Unguarded channel user message =
    AtMost->>= {p = is_guarded_call} 0 0 _ _
      (call_api-AtMost_any is_guarded_call (text "chat.postEphemeral") _ _) (λ body. AtMost-pure tt)

pub update_message-Unguarded :
    (channel ts : Json) (blocks : List Json) → Unguarded (update_message channel ts blocks)
unfolding update_message text_eq text
update_message-Unguarded channel ts blocks =
    AtMost->>= {p = is_guarded_call} 0 0 _ _
      (call_api-AtMost_any is_guarded_call (text "chat.update") _ _) (λ body. AtMost-pure tt)

pub notify-AtMost :
    (p : Call → Bool) (n : ℕ) (call : Exec (Unit {0}))
    → ((s : Severity) → p (Call.logged s) ≡ false)
    → AtMost p n call
    → AtMost p n (notify_slack call)
unfolding notify_slack
notify-AtMost p n call silent h = record {
  at = λ w calls. after w (call w calls).0 (call w calls).1 (h.at w calls);
}
  where
    after :
        (w : World) (r : Result (Unit {0})) (later : List Call) {m : ℕ}
        → count p later ≤ m
        → count p (after_notify r w later).1 ≤ m
    after w (ok done) later le = le
    after w (raised e) later le = elim (Bool-cases (is_swallowed e)) [
      | inl swallowed ↦ rw (swallowed, silent Severity.error) (omega (arith, le))
      | inr passed ↦ rw passed le
    ]

pub tell_user-Unguarded :
    (channel : Json) (user message : Text)
    → Unguarded (notify_slack (post_ephemeral channel user message))
tell_user-Unguarded channel user message =
    notify-AtMost is_guarded_call 0 _ (λ s. refl) (post_ephemeral-Unguarded channel user message)

pub tell-Unguarded :
    (slack : Bool) (channel user : Option Text) (message : Text)
    → Unguarded (tell slack channel user message)
unfolding tell
tell-Unguarded slack none user message = AtMost-pure tt
tell-Unguarded slack (some channel) none message = AtMost-pure tt
tell-Unguarded slack (some channel) (some user) message =
    AtMost-when _ _ (tell_user-Unguarded (string channel) user message)

-- Resolving who is authorized, then going on: nothing guarded when this finds nobody who may.
pub after_resolve-Unguarded :
    {B : Type 0} (w : World) (calls : List Call) (client : Option ModeratorClient)
    (csv : Option Text) (k : AuthorizedUsers → Exec B)
    → Outcome Anything (λ a. Unguarded (k a)) (resolve_authorized_users client csv w calls).0
    → count is_guarded_call ((resolve_authorized_users client csv >>= k) w calls).1
      ≤ count is_guarded_call calls
after_resolve-Unguarded w calls client csv k h =
    rest (resolve_authorized_users client csv w calls).0 _
      ((resolve-Unguarded client csv).at w calls) h
  where
    rest :
        (r : Result AuthorizedUsers) (later : List Call)
        → count is_guarded_call later ≤ count is_guarded_call calls + 0
        → Outcome Anything (λ a. Unguarded (k a)) r
        → count is_guarded_call (resume k w r later).1 ≤ count is_guarded_call calls
    rest (ok a) later le u = omega (arith, u.at w later)
    rest (raised e) later le u = omega arith
