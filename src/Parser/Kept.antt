-- ===== src/Parser/Kept.antt =====
-- services/parser.py, `extract_album_prefix`: what the pre-pass hands on.
use request_o_matic.Base.{
  ◌≡◌, refl, subst, Bool, true, false, not, ◌||◌, Option, none, some, [], ◌∷◌, ◌++◌, arith, inl,
  inr, Bool-cases, is_nil, if◌then◌else◌,
}
use request_o_matic.Parser.Album.{
  Unicode, extract_album_prefix, read_match, read_found, read_title, quoted_or, unquoted, trimmed,
  is_declined, rejoined, split_quoted_album, first_match, stripped,
}
use request_o_matic.Parser.Split.{match_album-IsDivision}
use request_o_matic.Parser.Words.{AlbumMatch, match_album, prep_token_prescreen}
use request_o_matic.Text.{Text, is_space, lstrip, rstrip, strip}

-- The first character is there and is no white space.
abbrev pub starts_ink : Text → Bool
starts_ink [] = false
starts_ink (c ∷ s) = not (is_space c)

starts_ink-lstrip : (s : Text) → is_nil (lstrip s) ≡ false → starts_ink (lstrip s) ≡ true
unfolding lstrip
starts_ink-lstrip [] h = absurd (ground (arith, h))
starts_ink-lstrip (c ∷ s) h = ground (arith, h, starts_ink-lstrip s)

rstrip_ink : (s : Text) → starts_ink s ≡ true → starts_ink (rstrip s) ≡ true
unfolding rstrip
rstrip_ink [] h = absurd (ground (arith, h))
rstrip_ink (c ∷ s) h = ground (arith, h)

strip_ink : (s : Text) → starts_ink s ≡ true → starts_ink (strip s) ≡ true
unfolding strip lstrip
strip_ink [] h = absurd (ground (arith, h))
strip_ink (c ∷ s) h =
    let ink : is_space c ≡ false = ground (arith, h) in rw ink (rstrip_ink (c ∷ s) h)

rstrip_nil : (s : Text) → is_nil (rstrip s) ≡ false → is_nil s ≡ false
unfolding rstrip
rstrip_nil [] h = h
rstrip_nil (c ∷ s) h = refl

starts_ink-strip : (s : Text) → is_nil (strip s) ≡ false → starts_ink (strip s) ≡ true
unfolding strip
starts_ink-strip s h = rstrip_ink (lstrip s) (starts_ink-lstrip s (rstrip_nil (lstrip s) h))

starts_ink-append : (s t : Text) → starts_ink s ≡ true → starts_ink (s ++ t) ≡ true
starts_ink-append [] t h = absurd (ground (arith, h))
starts_ink-append (c ∷ s) t h = h

-- A prefix begins where its text does.
prefix_ink :
    (s p t : Text) → s ≡ p ++ t → is_nil p ≡ false → starts_ink s ≡ true → starts_ink p ≡ true
prefix_ink s [] t e h k = absurd (ground (arith, h))
prefix_ink s (c ∷ p) t e h k = subst (λ x. starts_ink x ≡ true) e k

-- An album and a rest of the message, both with something in them.
abbrev pub IsKept : Option (Text × Text) → Type 0
IsKept none = Unit {0}
IsKept (some (album, rest)) = (starts_ink album ≡ true) × (starts_ink rest ≡ true)

if_IsKept : (b : Bool) (o : Option (Text × Text)) → IsKept o → IsKept (if b then none else o)
if_IsKept true o h = tt
if_IsKept false o h = h

unless_IsKept : (b : Bool) (o : Option (Text × Text)) → IsKept o → IsKept (if b then o else none)
unless_IsKept true o h = h
unless_IsKept false o h = tt

module _ (u : Unicode) where
  rejoined_ink :
      (prefix remainder : Text)
      → starts_ink prefix ≡ true
      → starts_ink (rejoined u prefix remainder) ≡ true
  rejoined_ink prefix [] h = h
  rejoined_ink prefix (c ∷ remainder) h =
      strip_ink (prefix ++ (32 ∷ c ∷ remainder)) (starts_ink-append prefix _ h)

  abbrev IsTitled : Option (Text × Text) → Type 0
  IsTitled none = Unit {0}
  IsTitled (some (title, remainder)) = starts_ink title ≡ true

  stripped-IsTitled : (m : Text × Text) → IsTitled (stripped u m)
  stripped-IsTitled (title, rest) = elim (Bool-cases (is_nil (strip title))) [
    | inl blank ↦ rw (blank, stripped) tt
    | inr given ↦ rw (given, stripped) (starts_ink-strip title given)
  ]

  first_match-IsTitled : (a b : Option (Text × Text)) → IsTitled (first_match u a b)
  first_match-IsTitled (some m) b = stripped-IsTitled m
  first_match-IsTitled none (some m) = stripped-IsTitled m
  first_match-IsTitled none none = tt

  split_quoted_album-IsTitled : (album : Text) → IsTitled (split_quoted_album u album)
  unfolding split_quoted_album
  split_quoted_album-IsTitled album = first_match-IsTitled _ _

  module _ (prefix prep : Text) (ink : starts_ink prefix ≡ true) where
    unquoted-IsKept : (album : Text) → IsKept (unquoted u prefix prep album)
    unfolding unquoted trimmed
    unquoted-IsKept album =
        elim (Bool-cases
          (is_nil (trimmed u album) || is_declined u prefix prep (trimmed u album))) [
            | inl declined ↦ rw declined tt
            | inr taken ↦ rw taken (starts_ink-strip _ (ground (arith, taken)), ink)
          ]

    quoted_or-IsKept :
        (album : Text) (o : Option (Text × Text))
        → IsTitled o
        → IsKept (quoted_or u prefix prep album o)
    quoted_or-IsKept album none h = unquoted-IsKept album
    quoted_or-IsKept album (some (title, remainder)) h = (h, rejoined_ink prefix remainder ink)

    read_title-IsKept : (album : Text) → IsKept (read_title u prefix prep album)
    unfolding read_title
    read_title-IsKept album =
        if_IsKept _ (quoted_or u prefix prep album (split_quoted_album u album))
          (quoted_or-IsKept album (split_quoted_album u album) (split_quoted_album-IsTitled album))

  read_match-IsKept : (m : AlbumMatch) → starts_ink m.prefix ≡ true → IsKept (read_match u m)
  unfolding read_match
  read_match-IsKept m ink =
      if_IsKept _ (read_title u (strip m.prefix) m.prep _)
        (read_title-IsKept (strip m.prefix) m.prep (strip_ink m.prefix ink) _)

  read_found-IsKept :
      (s : Text) (o : Option AlbumMatch)
      → starts_ink s ≡ true
      → match_album s ≡ o
      → IsKept (read_found u o)
  read_found-IsKept s none ink e = tt
  read_found-IsKept s (some m) ink e =
      let (division, given) = match_album-IsDivision s m e in
      read_match-IsKept m (prefix_ink s m.prefix _ division.divided given ink)

  -- When the pre-pass takes an album out of a message, the album and what is left of the message both have
  -- something in them, and neither begins with white space: the lookup gets no empty album, and Groq is
  -- asked about no empty message.
  pub extract_album_prefix-IsKept :
      (raw_message : Text) → IsKept (extract_album_prefix u raw_message)
  unfolding extract_album_prefix
  extract_album_prefix-IsKept raw_message = elim (Bool-cases (is_nil (strip raw_message))) [
    | inl blank ↦ rw blank tt
    | inr given ↦ rw given (
        unless_IsKept (prep_token_prescreen (strip raw_message))
          (read_found u (match_album (strip raw_message)))
          (read_found-IsKept (strip raw_message) (match_album (strip raw_message))
            (starts_ink-strip raw_message given) refl))
  ]
