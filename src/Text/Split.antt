-- ===== src/Text/Split.antt =====
-- `str.split` on one character: the parts of a text that is put together.
use request_o_matic.Base.{ℕ, ◌≡◌, refl, ap, List, [], ◌∷◌, ◌++◌, ◌==◌, arith, Bool-cases, inl, inr}
use request_o_matic.Text.{Text, split}

-- There is always a part.
pub split_nonempty : (sep : ℕ) (s : Text) → (p : Text) × (ps : List Text) × (split sep s ≡ p ∷ ps)
unfolding split
split_nonempty sep [] = ([], [], refl)
split_nonempty sep (c ∷ s) = elim (Bool-cases (c == sep)) [
  | inl cut ↦ ([], split sep s, rw cut)
  | inr kept ↦ let (p, ps, e) = split_nonempty sep s in (c ∷ p, ps, rw (kept, e))
]

pub split-append : (sep : ℕ) (s t : Text) → split sep (s ++ (sep ∷ t)) ≡ split sep s ++ split sep t
unfolding split
split-append sep [] t = ground arith
split-append sep (c ∷ s) t = elim (Bool-cases (c == sep)) [
  | inl cut ↦ rw cut (ap (λ ps. [] ∷ ps) (split-append sep s t))
  | inr kept ↦ rw (kept, split-append sep s t) (let (p, ps, e) = split_nonempty sep s in rw e refl)
]
