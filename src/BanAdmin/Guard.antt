-- ===== src/BanAdmin/Guard.antt =====
-- routers/admin.py: who reaches Backend-Service through the operators' routes, and what they are told.
use request_o_matic.Base.{
  ℕ, ◌≡◌, ◌∙◌, ◌⊎◌, refl, Bool, true, false, not, ◌&&◌, Option, none, some, List, [], ◌∷◌, ◌++◌,
  arith, Bool-cases, inl, inr, is_nil,
}
use request_o_matic.BanAdmin.{
  BanAdminClient, ban, unban, list_bans, headers, ban_payload, limit_param, cursor_param,
}
use request_o_matic.BanAdmin.Routes.{
  create_ban, delete_ban, get_bans, require_admin_token, check_token, is_bearer, two_parts,
  operator_result, route, get_ban_admin_client,
}
use request_o_matic.Exec.{Call, Exec, World, Result, ok, raised, Exception, attempt, ◌>>=◌}
use request_o_matic.Json.{string}
use request_o_matic.Text.Case.{lower}
use request_o_matic.Text.{Text, text, text_eq}
use request_o_matic.Text.Url.{quote}

-- The scheme is `bearer` in any case, and what follows it is the token, letter by letter.
abbrev pub is_bearer_of : Text → Option (Text × Text) → Bool
is_bearer_of token none = false
is_bearer_of token (some (scheme, sent)) =
    text_eq (lower scheme) (text "bearer") && text_eq sent token

is_bearer_lem :
    (token : Text) (parts : Option (Text × Text)) → is_bearer token parts ≡ is_bearer_of token parts
unfolding is_bearer
is_bearer_lem token none = refl
is_bearer_lem token (some (scheme, sent)) = refl

-- A token is set, and the header is `Bearer` with that token.
abbrev pub is_operator : Option Text → Option Text → Bool
is_operator (some token) (some authorization) =
    not (is_nil token)
    && (not (is_nil authorization) && is_bearer_of token (two_parts authorization))
is_operator token authorization = false

abbrev pub called : Bool → Option BanAdminClient → (BanAdminClient → Call) → List Call → List Call
called true (some c) call calls = call c ∷ calls
called admitted configured call calls = calls

admitted :
    (token authorization : Option Text) (w : World) (calls : List Call)
    → is_operator token authorization ≡ true
    → require_admin_token token authorization w calls ≡ (ok tt, calls)
unfolding require_admin_token check_token
admitted none authorization w calls h = ground (arith, h)
admitted (some token) none w calls h = ground (arith, h)
admitted (some token) (some authorization) w calls h =
    ground (arith, h, is_bearer_lem token (two_parts authorization))

-- The refusals of the guard.
abbrev pub IsRefusal : Exception → Type 0
IsRefusal (Exception.http_exception status detail) = (status ≡ 401) ⊎ (status ≡ 403)
IsRefusal e = ⊥

abbrev Refusal : World → List Call → Exec (Unit {0}) → Type 0
Refusal w calls m = (e : Exception) × (m w calls ≡ (raised e, calls)) × IsRefusal e

refused :
    (token authorization : Option Text) (w : World) (calls : List Call)
    → is_operator token authorization ≡ false
    → Refusal w calls (require_admin_token token authorization)
unfolding require_admin_token check_token
refused none authorization w calls h = (_, refl, inr refl)
refused (some []) authorization w calls h = (_, refl, inr refl)
refused (some (t ∷ token)) none w calls h = (_, refl, inl refl)
refused (some (t ∷ token)) (some []) w calls h = (_, refl, inl refl)
refused (some (t ∷ token)) (some (a ∷ authorization)) w calls h =
    rw (is_bearer_lem (t ∷ token) (two_parts (a ∷ authorization)), h) (_, refl, inr refl)

module _ (token authorization : Option Text) (configured : Option BanAdminClient) where
  abbrev pub Reaches : {A : Type 0} → World → List Call → Exec A → (BanAdminClient → Call) → Type 0
  Reaches w calls m call =
      (m w calls).1 ≡ called (is_operator token authorization) configured call calls

  operator_result-quiet :
      {A : Type 0} (r : Result A) (w : World) (calls : List Call)
      → (operator_result r w calls).1 ≡ calls
  unfolding operator_result
  operator_result-quiet (ok a) w calls = refl
  operator_result-quiet (raised e) w calls = ground arith

  -- Any route whose body makes one call.
  route-Reaches :
      {A : Type 0} (body : BanAdminClient → Exec A) (call : BanAdminClient → Call) (w : World)
      (calls : List Call)
      → ((c : BanAdminClient) → (body c w calls).1 ≡ call c ∷ calls)
      → Reaches w calls (route token authorization configured body) call
  route-Reaches body call w calls h = elim (Bool-cases (is_operator token authorization)) [
    | inl valid ↦ rw (valid, admitted token authorization w calls valid) (reach configured)
    | inr invalid ↦ rw (invalid, (refused token authorization w calls invalid).1) refl
  ]
    where
      reach :
          (configured : Option BanAdminClient)
          → ((get_ban_admin_client configured >>= λ c. attempt (body c) >>= λ r. operator_result r)
              w calls).1
            ≡ called true configured call calls
      reach none = refl
      reach (some c) = operator_result-quiet (body c w calls).0 w _ ∙ h c

  -- Each of the three routes makes exactly one call of Backend-Service for an operator with the token,
  -- when the client is configured: the call of that route, with its arguments. Without the token, or
  -- without the client, it makes none.
  pub routes_guarded :
      (w : World) (calls : List Call) (fingerprint reason : Text) (seconds limit : Option ℕ)
      (cursor : Option Text)
      → Reaches w calls
          (create_ban token authorization configured fingerprint reason seconds)
          (λ c. Call.ban_post (headers c) (ban_payload c fingerprint (string reason) seconds none))
        × Reaches w calls
            (delete_ban token authorization configured fingerprint)
            (λ c. Call.ban_delete (headers c) (quote fingerprint))
        × Reaches w calls
            (get_bans token authorization configured limit cursor)
            (λ c. Call.ban_list (headers c) (limit_param c limit ++ cursor_param c cursor))
  unfolding create_ban delete_ban get_bans ban unban list_bans
  routes_guarded w calls fingerprint reason seconds limit cursor = (
    route-Reaches (λ c. ban c fingerprint (string reason) seconds none) _ w calls (λ c. refl),
    route-Reaches (λ c. unban c fingerprint) _ w calls (λ c. refl),
    route-Reaches (λ c. list_bans c limit cursor) _ w calls (λ c. refl),
  )
