-- ===== src/ServerTiming/Emitted.antt =====
-- routers/request.py, `_emit_server_timing_header`: the legs that are forwarded.
use request_o_matic.Base.{
  ◌≡◌, refl, sym, ap, subst, Bool, true, false, ◌||◌, Option, List, [], ◌∷◌, map, arith, Bool-cases,
  inl, inr, All, if◌then◌else◌,
}
use request_o_matic.ServerTiming.{
  Floats, Legs, is_token, emitted_key, assign, is_step, forward, parse_server_timing,
}
use request_o_matic.ServerTiming.Legs.{IsLeg, parse_server_timing-All}
use request_o_matic.Text.{Text, text, text_eq, text_eq_iff}

-- A list of keys without repetitions.
abbrev pub AreDistinct : List Text → Type 0
AreDistinct [] = Unit
AreDistinct (k ∷ ks) = (is_step k ks ≡ false) × AreDistinct ks

emitted_key_token : (name : Text) → is_token name ≡ true → is_token (emitted_key name) ≡ true
unfolding emitted_key is_token text
emitted_key_token name h = elim (Bool-cases (text_eq name (text "total"))) [
  | inl total ↦ rw total refl
  | inr else_ ↦ rw else_ h
]

emitted_key_not_total : (name : Text) → text_eq (emitted_key name) (text "total") ≡ false
unfolding emitted_key text_eq text
emitted_key_not_total name = elim (Bool-cases (text_eq name (text "total"))) [
  | inl total ↦ rw total refl
  | inr else_ ↦ rw else_ else_
]

text_eq_sym : (s t : Text) → text_eq s t ≡ text_eq t s
unfolding text_eq
text_eq_sym [] [] = refl
text_eq_sym [] (d ∷ t) = refl
text_eq_sym (c ∷ s) [] = refl
text_eq_sym (c ∷ s) (d ∷ t) = ground (arith, text_eq_sym s t)

module _ (fl : Floats) (steps : List Text) where
  open fl use {Float}

  abbrev pub keys : Legs fl → List Text
  keys legs = map (λ leg. leg.0) legs

  -- A leg that can stand beside the steps and the canonical total.
  abbrev pub IsForwarded : Text × Float → Type 0
  IsForwarded leg =
      IsLeg fl leg × (is_step leg.0 steps ≡ false) × (text_eq leg.0 (text "total") ≡ false)

  assign-All :
      (P : Text × Float → Type 0) (key : Text) (d : Float) (extra : Legs fl)
      → ((k : Text) → text_eq k key ≡ true → P (k, d))
      → P (key, d)
      → All P extra
      → All P (assign fl key d extra)
  unfolding assign
  assign-All P key d [] same p h = (p, tt)
  assign-All P key d ((k, e) ∷ extra) same p h = elim (Bool-cases (text_eq k key)) [
    | inl here ↦ rw here (same k here, h.1)
    | inr past ↦ rw past (h.0, assign-All P key d extra same p h.1)
  ]

  is_step-assign :
      (s key : Text) (d : Float) (extra : Legs fl)
      → is_step s (keys (assign fl key d extra)) ≡ (is_step s (keys extra) || text_eq key s)
  unfolding is_step assign
  is_step-assign s key d [] = ground arith
  is_step-assign s key d ((k, e) ∷ extra) = elim (Bool-cases (text_eq k key)) [
    | inl here ↦
        rw here (ground (arith, ap (λ (t : Text). text_eq t s) ((text_eq_iff k key).0 here)))
    | inr past ↦ rw past (rw (is_step-assign s key d extra) (ground arith))
  ]

  assign-AreDistinct :
      (key : Text) (d : Float) (extra : Legs fl)
      → AreDistinct (keys extra)
      → AreDistinct (keys (assign fl key d extra))
  unfolding assign is_step
  assign-AreDistinct key d [] h = (refl, tt)
  assign-AreDistinct key d ((k, e) ∷ extra) h = elim (Bool-cases (text_eq k key)) [
    | inl here ↦ rw here h
    | inr past ↦ rw past (
      rw (is_step-assign k key d extra) (ground (arith, h.0, text_eq_sym key k)),
      assign-AreDistinct key d extra h.1,
    )
  ]

  -- What the loop has collected.
  abbrev pub AreForwarded : Legs fl → Type 0
  AreForwarded extra = All IsForwarded extra × AreDistinct (keys extra)

  assign-AreForwarded :
      (key : Text) (d : Float) (extra : Legs fl)
      → IsForwarded (key, d)
      → AreForwarded extra
      → AreForwarded (assign fl key d extra)
  assign-AreForwarded key d extra p h = (
    assign-All IsForwarded key d extra
        (λ k e. subst (λ t. IsForwarded (t, d)) (sym ((text_eq_iff k key).0 e)) p) p h.0,
    assign-AreDistinct key d extra h.1,
  )

  forward-AreForwarded :
      (extra legs : Legs fl)
      → AreForwarded extra
      → All (IsLeg fl) legs
      → AreForwarded (forward fl steps extra legs)
  unfolding forward
  forward-AreForwarded extra [] h k = h
  forward-AreForwarded extra ((name, d) ∷ legs) h k =
      forward-AreForwarded
        (if is_step (emitted_key name) steps then extra else assign fl (emitted_key name) d extra)
        legs (kept (is_step (emitted_key name) steps) refl) k.1
    where
      kept :
          (b : Bool)
          → is_step (emitted_key name) steps ≡ b
          → AreForwarded (if b then extra else assign fl (emitted_key name) d extra)
      kept true e = h
      kept false e =
          assign-AreForwarded (emitted_key name) d extra
            ((emitted_key_token name k.0.0, k.0.1), e, emitted_key_not_total name) h

  -- The legs that go into the header beside the steps of the telemetry: each has a name that is a
  -- token and a finite duration that is not negative, no name is there twice, none is that of a step,
  -- and none is `total`, whatever the peer's header was.
  pub emitted-AreForwarded :
      (header : Option Text) → AreForwarded (forward fl steps [] (parse_server_timing fl header))
  emitted-AreForwarded header =
      forward-AreForwarded [] (parse_server_timing fl header) (tt, tt)
        (parse_server_timing-All fl header)
