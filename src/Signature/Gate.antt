-- ===== src/Signature/Gate.antt =====
-- `verify_slack_request` in front of the two routes that Slack calls.
use request_o_matic.Base.{ℕ, ◌≡◌, refl, false, Option, List, Bool-cases, inl, inr}
use request_o_matic.Base.Int.{ℤ}
use request_o_matic.Commands.Slash.{post_command, Elapsed}
use request_o_matic.Exec.{Call, World, raised, Exception}
use request_o_matic.Interactivity.{Python, Deployment}
use request_o_matic.Interactivity.Dispatch.{post_interactivity}
use request_o_matic.Signature.Window.{IsSigned, verify_sound}
use request_o_matic.Signature.{
  Hmac, verify_slack_request, verify_slack_signature, default_max_age_seconds,
}
use request_o_matic.Text.{Text, text}

abbrev pub unsigned : Exception
unsigned = Exception.http_exception 401 (text "Invalid Slack signature")

module _ (hmac : Hmac) (secret timestamp signature : Option Text) (now : ℤ) (body : List ℕ) where
  abbrev pub IsTrusted : Type 0
  IsTrusted = IsSigned hmac secret timestamp body signature now default_max_age_seconds

  not_verified :
      ¬ IsTrusted
      → verify_slack_signature hmac secret timestamp body signature now default_max_age_seconds
        ≡ false
  not_verified h =
      elim (Bool-cases
        (verify_slack_signature hmac secret timestamp body signature now default_max_age_seconds)) [
          | inl verified ↦ absurd (
              h (
                verify_sound hmac secret timestamp body signature now default_max_age_seconds
                  verified))
          | inr refused ↦ refused
        ]

  -- A callback that Slack has not signed, or not in the last five minutes, gets the flat 401 from both
  -- routes, and no call is made on its behalf: whatever the headers, the body and the deployment are.
  pub unsigned_refused :
      (py : Python) (elapsed : Elapsed) (d : Deployment) (w : World) (calls : List Call)
      → ¬ IsTrusted
      → (post_interactivity py d hmac secret timestamp signature now body w calls
          ≡ (raised unsigned, calls))
        × (post_command py elapsed d body hmac secret timestamp signature now w calls
            ≡ (raised unsigned, calls))
  unfolding post_interactivity post_command verify_slack_request
  unsigned_refused py elapsed d w calls h = (rw (not_verified h) refl, rw (not_verified h) refl)
