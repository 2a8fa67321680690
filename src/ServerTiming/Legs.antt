-- ===== src/ServerTiming/Legs.antt =====
-- core/server_timing.py: the legs that are read from a header.
use request_o_matic.Base.{
  ◌≡◌, refl, true, ◌&&◌, Option, none, some, List, [], ◌∷◌, Bool-cases, inl, inr, All, is_nil,
}
use request_o_matic.ServerTiming.{
  Floats, Legs, is_token, is_dur, sendable, dur_or, duration, named, read_parts, read_entry,
  cons_given, read_entries, parse_server_timing,
}
use request_o_matic.Text.{Text, strip, lstrip, rstrip, split}

module _ (fl : Floats) where
  open fl use {Float, float, is_finite, is_nonnegative}

  -- A leg that can be sent again.
  abbrev pub IsLeg : Text × Float → Type 0
  IsLeg (name, d) = (is_token name ≡ true) × ((is_finite d && is_nonnegative d) ≡ true)

  abbrev pub IsGood : Option (Text × Float) → Type 0
  IsGood none = Unit
  IsGood (some leg) = IsLeg leg

  sendable-IsGood :
      (name : Text) (o : Option Float)
      → is_token name ≡ true
      → IsGood (named fl name (sendable fl o))
  sendable-IsGood name none h = tt
  sendable-IsGood name (some d) h = elim (Bool-cases (is_finite d && is_nonnegative d)) [
    | inl fine ↦ rw fine (h, fine)
    | inr bad ↦ rw bad tt
  ]

  dur_or-IsGood :
      (name : Text) (o : Option (Text × Text)) (rest : Option Float)
      → is_token name ≡ true
      → IsGood (named fl name rest)
      → IsGood (named fl name (dur_or fl o rest))
  dur_or-IsGood name none rest h k = k
  dur_or-IsGood name (some (key, value)) rest h k = elim (Bool-cases (is_dur key)) [
    | inl dur ↦ rw dur (sendable-IsGood name _ h)
    | inr else_ ↦ rw else_ k
  ]

  duration-IsGood :
      (name : Text) (params : List Text)
      → is_token name ≡ true
      → IsGood (named fl name (duration fl params))
  unfolding duration
  duration-IsGood name [] h = tt
  duration-IsGood name (p ∷ ps) h = dur_or-IsGood name _ _ h (duration-IsGood name ps h)

  read_parts-IsGood : (parts : List Text) → IsGood (read_parts fl parts)
  unfolding read_parts
  read_parts-IsGood [] = tt
  read_parts-IsGood (name ∷ params) = elim (Bool-cases (is_token (strip name))) [
    | inl token ↦ rw token (duration-IsGood (strip name) params token)
    | inr bad ↦ rw bad tt
  ]

  read_entry-IsGood : (raw : Text) → IsGood (read_entry fl raw)
  unfolding read_entry
  read_entry-IsGood raw = elim (Bool-cases (is_nil (strip raw))) [
    | inl blank ↦ rw blank tt
    | inr ink ↦ rw ink (read_parts-IsGood (split 59 (strip raw)))
  ]

  cons_given-All :
      (o : Option (Text × Float)) (legs : Legs fl)
      → IsGood o
      → All IsLeg legs
      → All IsLeg (cons_given fl o legs)
  cons_given-All none legs h k = k
  cons_given-All (some leg) legs h k = (h, k)

  read_entries-All : (entries : List Text) → All IsLeg (read_entries fl entries)
  unfolding read_entries
  read_entries-All [] = tt
  read_entries-All (raw ∷ entries) =
      cons_given-All (read_entry fl raw) (read_entries fl entries) (read_entry-IsGood raw)
        (read_entries-All entries)

  pub parse_server_timing-All : (header : Option Text) → All IsLeg (parse_server_timing fl header)
  unfolding parse_server_timing
  parse_server_timing-All none = tt
  parse_server_timing-All (some header) = elim (Bool-cases (is_nil header)) [
    | inl empty ↦ rw empty tt
    | inr given ↦ rw given (read_entries-All (split 44 header))
  ]

  -- A header that is given is its entries, an empty one among them.
  pub entries_of :
      (header : Text) → parse_server_timing fl (some header) ≡ read_entries fl (split 44 header)
  unfolding parse_server_timing read_entries read_entry split strip lstrip rstrip
  entries_of [] = refl
  entries_of (c ∷ s) = refl
