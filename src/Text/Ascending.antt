-- ===== src/Text/Ascending.antt =====
-- An ascending list of texts stands for the set of its members: it is determined by them.
use request_o_matic.Base.{
  ◌≡◌, refl, sym, subst, true, false, List, [], ◌∷◌, arith, All, Bool-cases, inl, inr,
}
use request_o_matic.Text.{Text, text_eq, text_eq_iff, text_eq_refl}
use request_o_matic.Text.Order.{
  text_ltb, has_text, insert, sorted_set, IsAscending, text_ltb_irrefl, text_ltb_trans,
  text_ltb_total,
}
use mathlib.Core.Bool.{false≢true}

abbrev IsAbove : Text → Text → Type 0
IsAbove u v = text_ltb u v ≡ true

All-trans : (u v : Text) (vs : List Text) → IsAbove u v → All (IsAbove v) vs → All (IsAbove u) vs
All-trans u v [] h k = tt
All-trans u v (w ∷ ws) h k = (text_ltb_trans u v w h k.0, All-trans u v ws h k.1)

All-insert :
    (u w : Text) (vs : List Text) → IsAbove u w → All (IsAbove u) vs → All (IsAbove u) (insert w vs)
unfolding insert
All-insert u w [] h k = (h, tt)
All-insert u w (v ∷ vs) h k = ground (arith, All-insert u w vs h k.1)

pub insert-IsAscending : (u : Text) (vs : List Text) → IsAscending vs → IsAscending (insert u vs)
unfolding insert
insert-IsAscending u [] h = (tt, tt)
insert-IsAscending u (v ∷ vs) h = elim (Bool-cases (text_eq u v)) [
  | inl same ↦ rw same h
  | inr other ↦ elim (Bool-cases (text_ltb u v)) [
    | inl below ↦ rw (other, below) ((below, All-trans u v vs below h.0), h)
    | inr above ↦
        rw (other, above)
          (All-insert v u vs (text_ltb_total u v other above) h.0, insert-IsAscending u vs h.1)
  ]
]

pub sorted_set-IsAscending : (us : List Text) → IsAscending (sorted_set us)
unfolding sorted_set
sorted_set-IsAscending [] = tt
sorted_set-IsAscending (u ∷ us) = insert-IsAscending u (sorted_set us) (sorted_set-IsAscending us)

-- Nothing above a text is the text itself.
has_text-above : (u : Text) (vs : List Text) → All (IsAbove u) vs → has_text u vs ≡ false
unfolding has_text
has_text-above u [] h = refl
has_text-above u (v ∷ vs) h =
    ground (arith, text_eq_iff v u, text_ltb_irrefl u, has_text-above u vs)

-- A member of a list above a text is above it.
IsAbove-of_has_text :
    (u w : Text) (vs : List Text) → All (IsAbove u) vs → has_text w vs ≡ true → IsAbove u w
unfolding has_text
IsAbove-of_has_text u w [] h k = absurd (false≢true k)
IsAbove-of_has_text u w (v ∷ vs) h k =
    ground (arith, text_eq_iff v w, IsAbove-of_has_text u w vs h.1)

abbrev pub SameMembers : List Text → List Text → Type 0
SameMembers us vs = (w : Text) → has_text w us ≡ has_text w vs

heads_equal :
    (u v : Text) (us vs : List Text)
    → IsAscending (u ∷ us)
    → IsAscending (v ∷ vs)
    → SameMembers (u ∷ us) (v ∷ vs)
    → u ≡ v
unfolding has_text
heads_equal u v us vs h k same = ground (
  arith,
  same u,
  same v,
  text_eq_refl u,
  text_eq_refl v,
  text_eq_iff u v,
  text_eq_iff v u,
  IsAbove-of_has_text u v us h.0,
  IsAbove-of_has_text v u vs k.0,
  text_ltb_trans u v u,
  text_ltb_irrefl u,
)

tails_same :
    (u : Text) (us vs : List Text)
    → IsAscending (u ∷ us)
    → IsAscending (u ∷ vs)
    → SameMembers (u ∷ us) (u ∷ vs)
    → SameMembers us vs
unfolding has_text
tails_same u us vs h k same w =
    ground (arith, same w, text_eq_iff u w, has_text-above u us h.0, has_text-above u vs k.0)

pub ascending_ext :
    (us vs : List Text) → IsAscending us → IsAscending vs → SameMembers us vs → us ≡ vs
unfolding has_text
ascending_ext [] [] h k same = refl
ascending_ext [] (v ∷ vs) h k same = ground (arith, same v, text_eq_refl v)
ascending_ext (u ∷ us) [] h k same = ground (arith, same u, text_eq_refl u)
ascending_ext (u ∷ us) (v ∷ vs) h k same =
    let e = heads_equal u v us vs h k same in
    let k' = subst (λ x. IsAscending (x ∷ vs)) (sym e) k in
    let same' = subst (λ x. SameMembers (u ∷ us) (x ∷ vs)) (sym e) same in
    let rest = ascending_ext us vs h.1 k.1 (tails_same u us vs h k' same') in rw (e, rest)
