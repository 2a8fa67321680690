-- ===== src/Text/Strip.antt =====
-- `str.strip`: it removes a prefix and a suffix of white space, and nothing else.
use request_o_matic.Base.{
  ℕ, ◌≤◌, ◌≡◌, refl, sym, ap, ◌∙◌, true, false, ◌&&◌, [], ◌∷◌, ◌++◌, arith, inl, inr, Bool-cases,
  All, is_nil, length,
}
use request_o_matic.Text.{Text, is_space, lstrip, rstrip, strip}

abbrev pub IsBlank : Text → Type 0
IsBlank s = All (λ c. is_space c ≡ true) s

abbrev pub HasNoSpace : Text → Type 0
HasNoSpace s = All (λ c. is_space c ≡ false) s

pub lstrip_split : (s : Text) → (w : Text) × IsBlank w × (s ≡ w ++ lstrip s)
unfolding lstrip
lstrip_split [] = ([], tt, refl)
lstrip_split (c ∷ s) = elim (Bool-cases (is_space c)) [
  | inl blank ↦ let (w, h, e) = lstrip_split s in (c ∷ w, (blank, h), rw blank (ap (λ t. c ∷ t) e))
  | inr ink ↦ ([], tt, rw ink)
]

is_nil-eq-true : (s : Text) → is_nil s ≡ true → s ≡ []
is_nil-eq-true [] h = refl
is_nil-eq-true (c ∷ s) h = ground arith

rstrip_split : (s : Text) → (v : Text) × IsBlank v × (s ≡ rstrip s ++ v)
unfolding rstrip
rstrip_split [] = ([], tt, refl)
rstrip_split (c ∷ s) =
    let (v, h, e) = rstrip_split s in
    elim (Bool-cases (is_space c && is_nil (rstrip s))) [
      | inl blank ↦
          let gone : rstrip s ≡ [] = is_nil-eq-true (rstrip s) (ground arith) in
          (c ∷ v, (ground arith, h), rw blank (ap (λ t. c ∷ t) (e ∙ ap (λ t. t ++ v) gone)))
      | inr ink ↦ (v, h, rw ink (ap (λ t. c ∷ t) e))
    ]

pub lstrip_blank : (w s : Text) → IsBlank w → lstrip (w ++ s) ≡ lstrip s
unfolding lstrip
lstrip_blank [] s h = refl
lstrip_blank (c ∷ w) s h = rw h.0 (lstrip_blank w s h.1)

rstrip_of_blank : (v : Text) → IsBlank v → rstrip v ≡ []
unfolding rstrip
rstrip_of_blank [] h = refl
rstrip_of_blank (c ∷ v) h = rw (rstrip_of_blank v h.1, h.0) refl

pub rstrip_blank : (s v : Text) → IsBlank v → rstrip (s ++ v) ≡ rstrip s
unfolding rstrip
rstrip_blank [] v h = rstrip_of_blank v h
rstrip_blank (c ∷ s) v h = rw (rstrip_blank s v h)

lstrip_of_blank : (v : Text) → IsBlank v → lstrip v ≡ []
unfolding lstrip
lstrip_of_blank [] h = refl
lstrip_of_blank (c ∷ v) h = rw h.0 (lstrip_of_blank v h.1)

lstrip_ink : (c : ℕ) (s : Text) → is_space c ≡ false → lstrip (c ∷ s) ≡ c ∷ s
unfolding lstrip
lstrip_ink c s h = rw h

rstrip_of_HasNoSpace : (s : Text) → HasNoSpace s → rstrip s ≡ s
unfolding rstrip
rstrip_of_HasNoSpace [] h = refl
rstrip_of_HasNoSpace (c ∷ s) h = rw h.0 (ap (λ t. c ∷ t) (rstrip_of_HasNoSpace s h.1))

pub rstrip_idem : (s : Text) → rstrip (rstrip s) ≡ rstrip s
rstrip_idem s = let (v, h, e) = rstrip_split s in sym (ap rstrip e ∙ rstrip_blank (rstrip s) v h)

pub length-rstrip-le : (s : Text) → length (rstrip s) ≤ length s
unfolding rstrip
length-rstrip-le [] = omega arith
length-rstrip-le (c ∷ s) = ground (arith, length-rstrip-le s)

-- A text that has lost its surrounding white space is what lay between two blanks.
pub strip_split : (s : Text) → (w v : Text) × IsBlank w × IsBlank v × (s ≡ w ++ (strip s ++ v))
unfolding strip
strip_split s =
    let (w, hw, ew) = lstrip_split s in
    let (v, hv, ev) = rstrip_split (lstrip s) in (w, v, hw, hv, ew ∙ ap (λ t. w ++ t) ev)

-- White space around a text without any goes away.
pub strip_around : (w s v : Text) → IsBlank w → HasNoSpace s → IsBlank v → strip (w ++ (s ++ v)) ≡ s
unfolding strip rstrip
strip_around w [] v hw hs hv = ap rstrip (lstrip_blank w v hw ∙ lstrip_of_blank v hv)
strip_around w (c ∷ s) v hw hs hv =
    ap rstrip (lstrip_blank w (c ∷ (s ++ v)) hw ∙ lstrip_ink c (s ++ v) hs.0)
    ∙ rstrip_blank (c ∷ s) v hv
    ∙ rstrip_of_HasNoSpace (c ∷ s) hs

pub rstrip-strip : (s : Text) → rstrip (strip s) ≡ strip s
unfolding strip
rstrip-strip s = rstrip_idem (lstrip s)
