-- ===== src/Text/Order.antt =====
-- Python's order on `str`, by code points, and the ascending lists that `sorted` makes of a set.
use request_o_matic.Base.{
  ◌≡◌, refl, ap, ◌∙◌, Bool, true, false, ◌||◌, List, [], ◌∷◌, arith, ltb, ◌==◌, All, if◌then◌else◌,
}
use request_o_matic.Text.{Text, text_eq, text_eq_iff}

unfoldable pub text_ltb : Text → Text → Bool
text_ltb s [] = false
text_ltb [] (d ∷ t) = true
text_ltb (c ∷ s) (d ∷ t) = if c == d then text_ltb s t else ltb c d

-- `text in texts`
unfoldable pub has_text : Text → List Text → Bool
has_text u [] = false
has_text u (v ∷ vs) = text_eq v u || has_text u vs

-- One more member of a set that is listed in order.
unfoldable pub insert : Text → List Text → List Text
insert u [] = u ∷ []
insert u (v ∷ vs) =
    if text_eq u v then v ∷ vs else if text_ltb u v then u ∷ v ∷ vs else v ∷ insert u vs

-- `sorted(set(texts))`
unfoldable pub sorted_set : List Text → List Text
unfolding insert
sorted_set [] = []
sorted_set (u ∷ us) = insert u (sorted_set us)

abbrev pub IsAscending : List Text → Type 0
IsAscending [] = Unit {0}
IsAscending (u ∷ us) = All (λ v. text_ltb u v ≡ true) us × IsAscending us

pub text_ltb_irrefl : (s : Text) → text_ltb s s ≡ false
unfolding text_ltb
text_ltb_irrefl [] = refl
text_ltb_irrefl (c ∷ s) = ground (arith, text_ltb_irrefl s)

pub text_ltb_trans :
    (s t u : Text) → text_ltb s t ≡ true → text_ltb t u ≡ true → text_ltb s u ≡ true
unfolding text_ltb
text_ltb_trans s t [] h k = ground arith
text_ltb_trans s [] (e ∷ u) h k = ground arith
text_ltb_trans [] (d ∷ t) (e ∷ u) h k = refl
text_ltb_trans (c ∷ s) (d ∷ t) (e ∷ u) h k = ground (arith, text_ltb_trans s t u)

pub text_ltb_total : (s t : Text) → text_eq s t ≡ false → text_ltb s t ≡ false → text_ltb t s ≡ true
unfolding text_ltb text_eq
text_ltb_total [] [] h k = ground arith
text_ltb_total [] (d ∷ t) h k = ground arith
text_ltb_total (c ∷ s) [] h k = refl
text_ltb_total (c ∷ s) (d ∷ t) h k = ground (arith, text_ltb_total s t)

pub has_text-insert :
    (w u : Text) (vs : List Text) → has_text w (insert u vs) ≡ (text_eq u w || has_text w vs)
unfolding has_text insert
has_text-insert w u [] = refl
has_text-insert w u (v ∷ vs) = ground (arith, text_eq_iff u v, has_text-insert w u vs)

-- The list has the members of the set.
pub has_text-sorted_set : (w : Text) (us : List Text) → has_text w (sorted_set us) ≡ has_text w us
unfolding has_text sorted_set
has_text-sorted_set w [] = refl
has_text-sorted_set w (u ∷ us) =
    has_text-insert w u (sorted_set us) ∙ ap (λ b. text_eq u w || b) (has_text-sorted_set w us)
