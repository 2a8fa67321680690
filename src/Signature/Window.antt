-- ===== src/Signature/Window.antt =====
-- services/slack_signature.py: what an accepted callback is.
use request_o_matic.Base.{
  ℕ, ◌+◌, ◌*◌, ◌≤◌, ◌≡◌, ◌∙◌, ap, subst, sym, refl, ◌↔◌, true, false, Option, none, some, List, all,
  ltb, arith, Option-cases, inl, inr, [], ◌∷◌,
}
use mathlib.Core.Option.{some-injective}
use request_o_matic.Base.Int.{ℤ, pos, negsuc}
use request_o_matic.Signature.{
  Hmac, int_of_text, skip_space, distance, expected_signature, is_expected, verify_slack_signature,
  signed_with,
}
use request_o_matic.Text.{Text, text, text_eq_refl, text_eq_iff, is_given}

-- All three values are there and not empty, the timestamp is an integer within the age of the clock, in
-- either direction, and the header is the one that goes with the secret, the timestamp and the body.
pub record IsSigned (hmac : Hmac) (secret timestamp : Option Text) (body : List ℕ)
    (signature : Option Text) (now : ℤ) (max_age : ℕ) : Type 0 where
  pub key : Text
  pub sent_at : Text
  pub request_time : ℤ
  pub has_key : secret ≡ some key
  pub has_timestamp : timestamp ≡ some sent_at
  pub key_given : is_given (some key) ≡ true
  pub is_number : int_of_text sent_at ≡ some request_time
  pub recent : distance now request_time ≤ max_age
  pub has_signature : signature ≡ some (expected_signature hmac key sent_at body)

pub distance_triangle : (a b t : ℤ) → distance a b ≤ distance a t + distance b t
distance_triangle (pos a) (pos b) (pos t) = omega arith
distance_triangle (pos a) (pos b) (negsuc t) = omega arith
distance_triangle (pos a) (negsuc b) (pos t) = omega arith
distance_triangle (pos a) (negsuc b) (negsuc t) = omega arith
distance_triangle (negsuc a) (pos b) (pos t) = omega arith
distance_triangle (negsuc a) (pos b) (negsuc t) = omega arith
distance_triangle (negsuc a) (negsuc b) (pos t) = omega arith
distance_triangle (negsuc a) (negsuc b) (negsuc t) = omega arith

module _ (hmac : Hmac) where
  is_expected_sound :
      (secret timestamp : Text) (body : List ℕ) (signature : Text)
      → is_expected hmac secret timestamp body signature ≡ true
      → expected_signature hmac secret timestamp body ≡ signature
  unfolding is_expected
  is_expected_sound secret timestamp body signature h =
      (text_eq_iff (expected_signature hmac secret timestamp body) signature).0 (ground (arith, h))

  signed_with_sound :
      (secret timestamp : Text) (body : List ℕ) (signature : Text) (now : ℤ) (max_age : ℕ)
      → signed_with hmac secret timestamp body signature now max_age ≡ true
      → is_given (some secret) ≡ true
      → IsSigned hmac (some secret) (some timestamp) body (some signature) now max_age
  signed_with_sound secret timestamp body signature now max_age h given =
      elim (Option-cases (int_of_text timestamp)) [
        | inl no_number ↦ absurd (ground (arith, h, no_number))
        | inr (time, number) ↦
            let recent : ltb max_age (distance now time) ≡ false = ground (arith, h, number) in
            record {
              key = secret;
              sent_at = timestamp;
              request_time = time;
              has_key = refl;
              has_timestamp = refl;
              key_given = given;
              is_number = number;
              recent = ground (arith, recent);
              has_signature = ap some (
                  sym (
                    is_expected_sound secret timestamp body signature
                      (ground (arith, h, number, recent))));
            }
      ]

  pub verify_sound :
      (secret timestamp : Option Text) (body : List ℕ) (signature : Option Text) (now : ℤ)
      (max_age : ℕ)
      → verify_slack_signature hmac secret timestamp body signature now max_age ≡ true
      → IsSigned hmac secret timestamp body signature now max_age
  unfolding verify_slack_signature
  verify_sound (some []) (some t) body (some g) now max_age h = absurd (ground (arith, h))
  verify_sound (some (k ∷ ks)) (some []) body (some g) now max_age h = absurd (ground (arith, h))
  verify_sound (some (k ∷ ks)) (some (t ∷ ts)) body (some []) now max_age h =
      absurd (ground (arith, h))
  verify_sound (some (k ∷ ks)) (some (t ∷ ts)) body (some (g ∷ gs)) now max_age h =
      signed_with_sound (k ∷ ks) (t ∷ ts) body (g ∷ gs) now max_age h refl
  verify_sound none timestamp body signature now max_age h = absurd (ground (arith, h))
  verify_sound (some k) none body signature now max_age h = absurd (ground (arith, h))
  verify_sound (some k) (some t) body none now max_age h = absurd (ground (arith, h))

  -- The digest is of latin-1 characters: hexadecimal digits are.
  abbrev pub IsLatin : Type 0
  IsLatin = (key message : List ℕ) → all (λ c. ltb c 256) (hmac key message) ≡ true

  latin-expected :
      IsLatin
      → (secret timestamp : Text) (body : List ℕ)
      → all (λ c. ltb c 256) (expected_signature hmac secret timestamp body) ≡ true
  unfolding expected_signature text
  latin-expected latin secret timestamp body = latin _ _

  signed_with_complete :
      (secret timestamp : Text) (body : List ℕ) (now : ℤ) (max_age : ℕ) (time : ℤ)
      → IsLatin
      → int_of_text timestamp ≡ some time
      → distance now time ≤ max_age
      → signed_with hmac secret timestamp body
          (expected_signature hmac secret timestamp body)
          now
          max_age
        ≡ true
  unfolding is_expected
  signed_with_complete secret timestamp body now max_age time latin number recent =
      let kept : ltb max_age (distance now time) ≡ false = ground (arith, recent) in
      rw
        (
          number,
          kept,
          latin-expected latin secret timestamp body,
          text_eq_refl (expected_signature hmac secret timestamp body),
        )
        refl

  timestamp_given : (t : Text) (time : ℤ) → int_of_text t ≡ some time → is_given (some t) ≡ true
  unfolding int_of_text skip_space
  timestamp_given [] time h = absurd (cc h)
  timestamp_given (c ∷ t) time h = refl

  complete :
      (key sent_at : Text) (body : List ℕ) (now : ℤ) (max_age : ℕ) (time : ℤ)
      → IsLatin
      → is_given (some key) ≡ true
      → int_of_text sent_at ≡ some time
      → distance now time ≤ max_age
      → verify_slack_signature hmac
          (some key)
          (some sent_at)
          body
          (some (expected_signature hmac key sent_at body))
          now
          max_age
        ≡ true
  unfolding verify_slack_signature
  complete key sent_at body now max_age time latin given number recent =
      let there : is_given (some (expected_signature hmac key sent_at body)) ≡ true =
        unfold expected_signature text in refl in
      rw (given, timestamp_given sent_at time number, there)
        (signed_with_complete key sent_at body now max_age time latin number recent)

  -- A callback is accepted exactly if it is signed: a secret is set, the timestamp is an integer within
  -- the age of the clock in either direction, and the header is the digest for this secret, this
  -- timestamp and this body. Every other combination of headers, absent and malformed ones included, is
  -- refused. The digest is in latin-1.
  pub verify_slack_signature_iff :
      (secret timestamp : Option Text) (body : List ℕ) (signature : Option Text) (now : ℤ)
      (max_age : ℕ)
      → IsLatin
      → (verify_slack_signature hmac secret timestamp body signature now max_age ≡ true)
        ↔ IsSigned hmac secret timestamp body signature now max_age
  verify_slack_signature_iff secret timestamp body signature now max_age latin = (
    verify_sound secret timestamp body signature now max_age,
    λ s.
        rw (s.has_key, s.has_timestamp, s.has_signature)
          (complete s.key s.sent_at body now max_age s.request_time latin s.key_given s.is_number
            s.recent),
  )

  -- The same callback, accepted at two moments, was sent again within twice the age: a captured request
  -- is of no use any later.
  pub replay_bound :
      (secret timestamp : Option Text) (body : List ℕ) (signature : Option Text) (now later : ℤ)
      (max_age : ℕ)
      → verify_slack_signature hmac secret timestamp body signature now max_age ≡ true
      → verify_slack_signature hmac secret timestamp body signature later max_age ≡ true
      → distance now later ≤ max_age * 2
  replay_bound secret timestamp body signature now later max_age h k =
      let first = verify_sound secret timestamp body signature now max_age h in
      let second = verify_sound secret timestamp body signature later max_age k in
      let same_text : first.sent_at ≡ second.sent_at =
        some-injective _ _ (sym first.has_timestamp ∙ second.has_timestamp) in
      let same : first.request_time ≡ second.request_time =
        some-injective _ _ (sym first.is_number ∙ ap int_of_text same_text ∙ second.is_number) in
      omega (
        arith,
        distance_triangle now later first.request_time,
        first.recent,
        subst (λ t. distance later t ≤ max_age) (sym same) second.recent,
      )
