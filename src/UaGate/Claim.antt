-- ===== src/UaGate/Claim.antt =====
-- services/ua_gate.py: what a header that closes the gate says.
use mathlib.Core.Option.{none-ne-some, some-injective}
use request_o_matic.Base.{
  ℕ, zero, suc, ◌<◌, ◌≤◌, ◌≡◌, refl, sym, ap, subst, ◌∙◌, Bool, true, false, ◌&&◌, ◌||◌, ◌⊎◌,
  Option, none, some, List, [], ◌∷◌, ◌++◌, All, arith, length, ◌==◌, Bool-cases, Option-cases, inl,
  inr, if◌then◌else◌, append_assoc,
}
use request_o_matic.Text.{Text, text, text_eq, text_eq_iff, span, split}
use request_o_matic.UaGate.{
  any_strict, close_product, find_products, found, ints_of, is_digit, is_known_strict_client,
  is_product_char, is_strict_version, next_product, tuple_ge, version_run,
}

-- `product/version` stands somewhere in the text.
pub record Occurs (s : Text) (claim : Text × Text) : Type 0 where
  pub before : Text
  pub after : Text
  pub divided : s ≡ before ++ (claim.0 ++ (b'/' ∷ (claim.1 ++ after)))

Occurs-later : (skipped s : Text) (m : Text × Text) → Occurs s m → Occurs (skipped ++ s) m
Occurs-later skipped s m o = record {
  before = skipped ++ o.before;
  after = o.after;
  divided = ap (λ t. skipped ++ t) o.divided ∙ sym (append_assoc skipped o.before _);
}

span_split : (p : ℕ → Bool) (s : Text) → s ≡ (span p s).0 ++ (span p s).1
unfolding span
span_split p [] = refl
span_split p (c ∷ s) = elim (Bool-cases (p c)) [
  | inl in_run ↦ rw in_run (ap (λ t. c ∷ t) (span_split p s))
  | inr outside ↦ rw outside refl
]

version_run_split : (s : Text) → s ≡ (version_run s).0 ++ (version_run s).1
unfolding version_run
version_run_split [] = refl
version_run_split (c ∷ []) = elim (Bool-cases (is_digit c)) [
  | inl digit ↦ rw digit refl
  | inr other ↦ rw other refl
]
version_run_split (c ∷ d ∷ s) = elim (Bool-cases (is_digit c || (c == b'.' && is_digit d))) [
  | inl more ↦ rw more (ap (λ t. c ∷ t) (version_run_split (d ∷ s)))
  | inr ends ↦ rw ends refl
]

-- What a round of the scan takes from a text: all before the rest, and a match stands at its end.
record Taken (s : Text) (r : Option (Text × Text) × Text) : Type 0 where
  skipped : Text
  divided : s ≡ skipped ++ r.1
  matched : (m : Text × Text) → r.0 ≡ some m → Occurs s m

Taken-if :
    (s : Text) (b : Bool) (r r' : Option (Text × Text) × Text)
    → (b ≡ true → Taken s r)
    → (b ≡ false → Taken s r')
    → Taken s (if b then r else r')
Taken-if s true r r' h h' = h refl
Taken-if s false r r' h h' = h' refl

-- A round without a match.
Taken-none : (skipped rest : Text) → Taken (skipped ++ rest) (none, rest)
Taken-none skipped rest = record {
  skipped = skipped;
  divided = refl;
  matched = λ m e. absurd (none-ne-some m e);
}

close_product-Taken : (run s : Text) → Taken (run ++ s) (close_product run s)
unfolding close_product
close_product-Taken run [] = Taken-none run []
close_product-Taken run (c ∷ []) = Taken-none run (c ∷ [])
close_product-Taken run (c ∷ d ∷ s) =
    Taken-if (run ++ (c ∷ d ∷ s)) (c == b'/' && is_digit d) _ _
      (λ closes.
        let (version, rest) = version_run (d ∷ s) in
        let here : run ++ (c ∷ d ∷ s) ≡ run ++ (b'/' ∷ (version ++ rest)) =
          ap (λ t. run ++ t)
            (ap (λ (k : ℕ). k ∷ d ∷ s) (ground (arith, closes))
              ∙ ap (λ t. b'/' ∷ t) (version_run_split (d ∷ s))) in
        record {
          skipped = run ++ (b'/' ∷ version);
          divided = here ∙ sym (append_assoc run (b'/' ∷ version) rest);
          matched = λ m e.
              subst (Occurs (run ++ (c ∷ d ∷ s))) (some-injective _ m e)
                (record { before = []; after = rest; divided = here });
        })
      (λ open_end. Taken-none run (c ∷ d ∷ s))

next_product-Taken : (c : ℕ) (s : Text) → Taken (c ∷ s) (next_product c s)
unfolding next_product
next_product-Taken c s =
    let (run, rest) = span is_product_char s in
    Taken-if (c ∷ s) (is_product_char c) (close_product (c ∷ run) rest) (none, s)
      (λ in_product.
        subst (λ t. Taken t (close_product (c ∷ run) rest))
          (ap (λ t. c ∷ t) (sym (span_split is_product_char s)))
          (close_product-Taken (c ∷ run) rest))
      (λ outside. Taken-none (c ∷ []) s)

All-weaken :
    {P Q : Text × Text → Type 0} (ms : List (Text × Text))
    → ((m : Text × Text) → P m → Q m)
    → All P ms
    → All Q ms
All-weaken [] f h = tt
All-weaken (m ∷ ms) f h = (f m h.0, All-weaken ms f h.1)

All-found :
    {P : Text × Text → Type 0} (o : Option (Text × Text)) (ms : List (Text × Text))
    → ((m : Text × Text) → o ≡ some m → P m)
    → All P ms
    → All P (found o ms)
All-found none ms f h = h
All-found (some m) ms f h = (f m refl, h)

-- Whatever the scan finds stands in the text.
find_products-Occurs : (fuel : ℕ) (s : Text) → All (Occurs s) (find_products fuel s)
unfolding find_products
find_products-Occurs zero s = tt
find_products-Occurs (suc fuel) [] = tt
find_products-Occurs (suc fuel) (c ∷ s) =
    let taken = next_product-Taken c s in
    let rest = (next_product c s).1 in
    All-found {P = Occurs (c ∷ s)} (next_product c s).0 (find_products fuel rest) taken.matched (
      All-weaken (find_products fuel rest)
        (λ m o. subst (λ t. Occurs t m) (sym taken.divided) (Occurs-later taken.skipped rest m o))
        (find_products-Occurs fuel rest))

-- The version as numbers is 3.2 or later.
abbrev pub IsAtLeast : List ℕ → Type 0
IsAtLeast [] = ⊥
IsAtLeast (major ∷ []) = 3 < major
IsAtLeast (major ∷ minor ∷ parts) = (3 < major) ⊎ ((major ≡ 3) × (2 ≤ minor))

-- The header names the iOS client with such a version.
pub record ClaimsStrict (user_agent : Text) : Type 0 where
  pub version : Text
  pub occurs : Occurs user_agent (text "WXYC-iOS", version)
  pub parts : List ℕ
  pub are_parts : ints_of (split b'.' version) ≡ some parts
  pub is_at_least : IsAtLeast parts

tuple_ge-IsAtLeast : (parts : List ℕ) → tuple_ge parts (3 ∷ 2 ∷ []) ≡ true → IsAtLeast parts
unfolding tuple_ge
tuple_ge-IsAtLeast [] h = absurd (ground (arith, h))
tuple_ge-IsAtLeast (major ∷ []) h = ground (arith, h)
tuple_ge-IsAtLeast (major ∷ minor ∷ parts) h = elim (Bool-cases (major == 3)) [
  | inl same ↦ inr (ground (arith, same), ground (arith, h, same))
  | inr other ↦ inl (ground (arith, h, other))
]

strict_version :
    (version : Text)
    → is_strict_version version (3 ∷ 2 ∷ []) ≡ true
    → (parts : List ℕ) × (ints_of (split b'.' version) ≡ some parts) × IsAtLeast parts
unfolding is_strict_version
strict_version version h = elim (Option-cases (ints_of (split b'.' version))) [
  | inl unread ↦ absurd (ground (arith, h, unread))
  | inr (parts, read) ↦ (parts, read, tuple_ge-IsAtLeast parts (ground (arith, h, read)))
]

any_strict-ClaimsStrict :
    (s : Text) (ms : List (Text × Text)) → All (Occurs s) ms → any_strict ms ≡ true → ClaimsStrict s
unfolding any_strict
any_strict-ClaimsStrict s [] occur h = absurd (ground (arith, h))
any_strict-ClaimsStrict s ((product, version) ∷ ms) occur h =
    elim (Bool-cases (text_eq product (text "WXYC-iOS"))) [
      | inr other ↦ any_strict-ClaimsStrict s ms occur.1 (ground (arith, h, other))
      | inl ios ↦ elim (Bool-cases (is_strict_version version (3 ∷ 2 ∷ []))) [
        | inr old ↦ any_strict-ClaimsStrict s ms occur.1 (ground (arith, h, ios, old))
        | inl strict ↦
            let (parts, read, at_least) = strict_version version strict in
            record {
              version = version;
              occurs = subst (λ p. Occurs s (p, version)) ((text_eq_iff product _).0 ios) occur.0;
              parts = parts;
              are_parts = read;
              is_at_least = at_least;
            }
      ]
    ]

-- Only a header that names the iOS client with a version of 3.2 or later is taken for a known strict
-- client: `WXYC-iOS/` and such a version stand in it.
pub is_known_strict_client-ClaimsStrict :
    (header : Option Text)
    → is_known_strict_client header ≡ true
    → (user_agent : Text) × (header ≡ some user_agent) × ClaimsStrict user_agent
unfolding is_known_strict_client
is_known_strict_client-ClaimsStrict none h = absurd (ground (arith, h))
is_known_strict_client-ClaimsStrict (some user_agent) h = (
  user_agent,
  refl,
  any_strict-ClaimsStrict user_agent (find_products (length user_agent) user_agent)
      (find_products-Occurs (length user_agent) user_agent) (ground (arith, h)),
)
