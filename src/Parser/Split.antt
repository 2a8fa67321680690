-- ===== src/Parser/Split.antt =====
-- services/parser.py, `_ALBUM_PREPOSITION_RE`: how a match divides the message.
use mathlib.Core.Option.{none-ne-some, some-injective}
use request_o_matic.Base.{
  ℕ, ◌≡◌, refl, sym, ap, ◌∙◌, subst, Bool, true, false, not, ◌&&◌, ◌||◌, All, Option, none, some,
  List, [], ◌∷◌, ◌++◌, ◌==◌, arith, inl, inr, Bool-cases, is_nil, if◌then◌else◌,
}
use request_o_matic.Parser.Words.{
  has_newline, starts_blank, prepositions, album_after, match_preposition, AlbumMatch, prefixed,
  ends_here, shortest_prefix, match_album,
}
use request_o_matic.Text.Case.{is_alike, after_literal}
use request_o_matic.Text.Strip.{IsBlank, lstrip_split}
use request_o_matic.Text.{Text, text, text_eq, is_space, lstrip}

-- Letter by letter, the text is the literal in one of its cases.
abbrev pub IsAlike : Text → Text → Type 0
IsAlike [] [] = Unit {0}
IsAlike [] (c ∷ s) = ⊥
IsAlike (p ∷ ps) [] = ⊥
IsAlike (p ∷ ps) (c ∷ s) = (is_alike p c ≡ true) × IsAlike ps s

-- White space, at least one character of it.
abbrev pub IsGap : Text → Type 0
IsGap w = IsBlank w × (is_nil w ≡ false)

-- The four prepositions that the documentation of the pre-pass names.
abbrev pub is_preposition : Text → Bool
is_preposition p =
    text_eq p (text "off of")
    || text_eq p (text "off")
    || text_eq p (text "from")
    || text_eq p (text "on")

abbrev ArePrepositions : List Text → Type 0
ArePrepositions ps = All (λ p. is_preposition p ≡ true) ps

-- A preposition, white space and an album of one line.
pub record IsPhrase (s prep album : Text) : Type 0 where
  pub word : Text
  pub gap : Text
  pub divided : s ≡ word ++ (gap ++ album)
  pub is_supported : is_preposition prep ≡ true
  pub is_word : IsAlike prep word
  pub is_gap : IsGap gap
  pub has_album : is_nil album ≡ false
  pub one_line : has_newline album ≡ false

pub record IsDivision (s : Text) (m : AlbumMatch) : Type 0 where
  pub gap : Text
  pub phrase : Text
  pub divided : s ≡ m.prefix ++ (gap ++ phrase)
  pub is_gap : IsGap gap
  pub is_phrase : IsPhrase phrase m.prep m.album
  pub one_line : has_newline m.prefix ≡ false

after_literal_split :
    (p s rest : Text)
    → after_literal p s ≡ some rest
    → (word : Text) × IsAlike p word × (s ≡ word ++ rest)
unfolding after_literal
after_literal_split [] s rest h = ([], tt, some-injective s rest h)
after_literal_split (p ∷ ps) [] rest h = absurd (none-ne-some rest h)
after_literal_split (p ∷ ps) (c ∷ s) rest h = elim (Bool-cases (is_alike p c)) [
  | inl alike ↦
      let (word, a, e) = after_literal_split ps s rest (ground (arith, h, alike)) in
      (c ∷ word, (alike, a), ap (λ t. c ∷ t) e)
  | inr other ↦ absurd (ground (arith, h, other))
]

lstrip-IsGap : (s : Text) → starts_blank s ≡ true → (gap : Text) × IsGap gap × (s ≡ gap ++ lstrip s)
unfolding lstrip
lstrip-IsGap [] h = absurd (ground (arith, h))
lstrip-IsGap (c ∷ s) h =
    let (w, b, e) = lstrip_split s in (c ∷ w, ((h, b), refl), rw h (ap (λ t. c ∷ t) e))

album_after_split :
    (rest album : Text)
    → album_after (some rest) ≡ some album
    → (gap : Text) × IsGap gap
      × (rest ≡ gap ++ album)
      × (is_nil album ≡ false)
      × (has_newline album ≡ false)
album_after_split rest album h =
    elim (Bool-cases
      (starts_blank rest && (not (is_nil (lstrip rest)) && not (has_newline (lstrip rest))))) [
        | inl fits ↦
            let e : lstrip rest ≡ album = some-injective _ _ (sym (rw fits refl) ∙ h) in
            let (gap, g, d) = lstrip-IsGap rest (ground (arith, fits)) in
            (
              gap,
              g,
              d ∙ ap (λ t. gap ++ t) e,
              subst (λ t. is_nil t ≡ false) e (ground (arith, fits)),
              subst (λ t. has_newline t ≡ false) e (ground (arith, fits)),
            )
        | inr other ↦ absurd (none-ne-some album (sym (rw other refl) ∙ h))
      ]

IsPhrase-here :
    (p s found : Text) (o : Option Text)
    → is_preposition p ≡ true
    → after_literal p s ≡ o
    → album_after o ≡ some found
    → IsPhrase s p found
IsPhrase-here p s found none supported e a = absurd (none-ne-some found a)
IsPhrase-here p s found (some rest) supported e a =
    let (word, alike, d) = after_literal_split p s rest e in
    let (gap, g, d', has_album, one_line) = album_after_split rest found a in
    record {
      word = word;
      gap = gap;
      divided = d ∙ ap (λ t. word ++ t) d';
      is_supported = supported;
      is_word = alike;
      is_gap = g;
      has_album = has_album;
      one_line = one_line;
    }

match_preposition-IsPhrase :
    (ps : List Text) (s prep album : Text)
    → ArePrepositions ps
    → match_preposition ps s ≡ some (prep, album)
    → IsPhrase s prep album
unfolding match_preposition
match_preposition-IsPhrase [] s prep album listed h = absurd (none-ne-some _ h)
match_preposition-IsPhrase (p ∷ ps) s prep album listed h =
    pick (match_preposition-IsPhrase ps s prep album listed.1) (album_after (after_literal p s))
      refl h
  where
    pick :
        (match_preposition ps s ≡ some (prep, album) → IsPhrase s prep album)
        → (o : Option Text) → album_after (after_literal p s) ≡ o
        → (elim o as (λ x. Option (Text × Text)) [
          | none ↦ match_preposition ps s
          | some found ↦ some (p, found)
        ])
          ≡ some (prep, album)
        → IsPhrase s prep album
    pick ih none e k = ih k
    pick ih (some found) e k =
        subst (λ t. IsPhrase s t.0 t.1) (some-injective _ _ k)
          (IsPhrase-here p s found (after_literal p s) listed.0 refl e)

grown :
    (c : ℕ) (s : Text) (m : AlbumMatch)
    → IsDivision s m
    → (c == 10) ≡ false
    → IsDivision (c ∷ s) (record { prefix = c ∷ m.prefix; prep = m.prep; album = m.album })
unfolding has_newline
grown c s m d h = record {
  gap = d.gap;
  phrase = d.phrase;
  divided = ap (λ t. c ∷ t) d.divided;
  is_gap = d.is_gap;
  is_phrase = d.is_phrase;
  one_line = rw h d.one_line;
}

-- One more character of the prefix.
prefixed-IsDivision :
    (c : ℕ) (s : Text) (o : Option AlbumMatch)
    → ((m : AlbumMatch) → o ≡ some m → IsDivision s m)
    → (m : AlbumMatch) → prefixed c o ≡ some m
    → IsDivision (c ∷ s) m
prefixed-IsDivision c s none ih m e = absurd (ground (arith, e))
prefixed-IsDivision c s (some n) ih m e = elim (Bool-cases (c == 10)) [
  | inl newline ↦ absurd (ground (arith, e, newline))
  | inr other ↦
      subst (IsDivision (c ∷ s)) (some-injective _ m (rw other at e))
        (grown c s n (ih n refl) other)
]

chosen : {A : Type 0} (b : Bool) (x y z : A) → b ≡ true → (if b then x else y) ≡ z → x ≡ z
chosen true x y z e h = h
chosen false x y z e h = absurd (ground (arith, e))

prepositions-ArePrepositions : ArePrepositions prepositions
unfolding text text_eq
prepositions-ArePrepositions = (refl, (refl, (refl, (refl, tt))))

shortest_prefix-IsDivision :
    (s : Text) (m : AlbumMatch) → shortest_prefix s ≡ some m → IsDivision s m
unfolding shortest_prefix has_newline
shortest_prefix-IsDivision [] m h = absurd (none-ne-some m h)
shortest_prefix-IsDivision (c ∷ s) m h = elim (Bool-cases (is_space c)) [
  | inl blank ↦
      ends (match_preposition prepositions (lstrip (c ∷ s))) blank refl
        (chosen (is_space c) _ _ (some m) blank h)
        (prefixed-IsDivision c s (shortest_prefix s) (shortest_prefix-IsDivision s) m)
  | inr ink ↦
      prefixed-IsDivision c s (shortest_prefix s) (shortest_prefix-IsDivision s) m (rw ink at h)
]
  where
    ends :
        (o : Option (Text × Text))
        → is_space c ≡ true
        → match_preposition prepositions (lstrip (c ∷ s)) ≡ o
        → ends_here o (prefixed c (shortest_prefix s)) ≡ some m
        → (prefixed c (shortest_prefix s) ≡ some m → IsDivision (c ∷ s) m)
        → IsDivision (c ∷ s) m
    ends none blank e k ih = ih k
    ends (some (prep, album)) blank e k ih =
        let (gap, g, d) = lstrip-IsGap (c ∷ s) blank in
        subst (IsDivision (c ∷ s)) (some-injective _ m k) (record {
          gap = gap;
          phrase = lstrip (c ∷ s);
          divided = d;
          is_gap = g;
          is_phrase =
              match_preposition-IsPhrase prepositions (lstrip (c ∷ s)) prep album
                prepositions-ArePrepositions e;
          one_line = refl;
        })

-- A match of the album pattern divides the message: a prefix that is not empty, white space, one of "off
-- of", "off", "from" and "on" in any case, white space, and an album that is not empty, with no line feed in the
-- prefix or the album. Nothing of the message is lost or added.
pub match_album-IsDivision :
    (s : Text) (m : AlbumMatch)
    → match_album s ≡ some m
    → IsDivision s m × (is_nil m.prefix ≡ false)
unfolding match_album
match_album-IsDivision [] m h = absurd (none-ne-some m h)
match_album-IsDivision (c ∷ s) m h = (
  prefixed-IsDivision c s (shortest_prefix s) (shortest_prefix-IsDivision s) m h,
  prefixed-nonempty (shortest_prefix s) h,
)
  where
    prefixed-nonempty : (o : Option AlbumMatch) → prefixed c o ≡ some m → is_nil m.prefix ≡ false
    prefixed-nonempty none e = absurd (ground (arith, e))
    prefixed-nonempty (some n) e = elim (Bool-cases (c == 10)) [
      | inl newline ↦ absurd (ground (arith, e, newline))
      | inr other ↦
          subst (λ (k : AlbumMatch). is_nil k.prefix ≡ false) (some-injective _ m (rw other at e))
            refl
    ]
