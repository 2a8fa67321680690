-- ===== src/Fingerprint/Shape.antt =====
-- What `normalize_fingerprint` accepts, described by the five groups of a UUID.
use request_o_matic.Base.{
  ℕ, zero, suc, ◌≡◌, refl, sym, ap, subst, ◌∙◌, ◌↔◌, ◌≢◌, ◌⊎◌, inl, inr, true, false, Bool, Option,
  none, some, [], ◌∷◌, ◌++◌, append-nil, append_assoc, arith, Bool-cases, Option-cases, All,
  All-append, length, length-append,
}
use request_o_matic.Text.{Text, is_space, rstrip, strip}
use request_o_matic.Text.Strip.{
  IsBlank, HasNoSpace, strip_split, strip_around, rstrip-strip, rstrip_blank, length-rstrip-le,
}
use request_o_matic.Fingerprint.{
  is_hex, hex_run, hyphen, at_end, fingerprint_re, normalize_fingerprint,
}

-- `n` hexadecimal digits.
abbrev pub IsGroup : ℕ → Text → Type 0
IsGroup n s = (length s ≡ n) × All (λ c. is_hex c ≡ true) s

abbrev dashed : Text → Text → Text → Text → Text → Text
dashed a b c d e = a ++ (b'-' ∷ (b ++ (b'-' ∷ (c ++ (b'-' ∷ (d ++ (b'-' ∷ e)))))))

-- A UUID of any version, in either case, with its hyphens.
pub record IsUuid (s : Text) : Type 0 where
  pub a : Text
  pub b : Text
  pub c : Text
  pub d : Text
  pub e : Text
  pub group_a : IsGroup 8 a
  pub group_b : IsGroup 4 b
  pub group_c : IsGroup 4 c
  pub group_d : IsGroup 4 d
  pub group_e : IsGroup 12 e
  pub shape : s ≡ a ++ (b'-' ∷ (b ++ (b'-' ∷ (c ++ (b'-' ∷ (d ++ (b'-' ∷ e)))))))

module _ (rest : Text → Bool) where
  hex_run_sound :
      (n : ℕ) (s : Text)
      → hex_run n rest s ≡ true
      → (g t : Text) × IsGroup n g × (s ≡ g ++ t) × (rest t ≡ true)
  unfolding hex_run
  hex_run_sound zero s h = ([], s, (refl, tt), refl, h)
  hex_run_sound (suc n) [] h = ground arith
  hex_run_sound (suc n) (c ∷ s) h =
      let (g, t, (size, digits), e, r) = hex_run_sound n s (ground arith) in
      (c ∷ g, t, (ap suc size, (ground arith, digits)), ap (λ u. c ∷ u) e, r)

  hex_run_complete :
      (n : ℕ) (g t : Text) → IsGroup n g → rest t ≡ true → hex_run n rest (g ++ t) ≡ true
  unfolding hex_run
  hex_run_complete zero [] t h r = r
  hex_run_complete zero (c ∷ g) t h r = absurd (omega arith)
  hex_run_complete (suc n) [] t h r = absurd (omega arith)
  hex_run_complete (suc n) (c ∷ g) t (size, digits) r =
      rw digits.0 (hex_run_complete n g t (omega arith, digits.1) r)

  hyphen_sound : (s : Text) → hyphen rest s ≡ true → (t : Text) × (s ≡ b'-' ∷ t) × (rest t ≡ true)
  unfolding hyphen
  hyphen_sound [] h = ground arith
  hyphen_sound (c ∷ s) h = (s, ground arith, ground arith)

  hyphen_complete : (t : Text) → rest t ≡ true → hyphen rest (b'-' ∷ t) ≡ true
  unfolding hyphen
  hyphen_complete t r = r

at_end_sound : (s : Text) → at_end s ≡ true → (s ≡ []) ⊎ (s ≡ 10 ∷ [])
unfolding at_end
at_end_sound [] h = inl refl
at_end_sound (c ∷ []) h = inr (ground arith)
at_end_sound (c ∷ d ∷ s) h = ground arith

dashed-append :
    (a b c d e t : Text)
    → dashed a b c d e ++ t ≡ a ++ (b'-' ∷ (b ++ (b'-' ∷ (c ++ (b'-' ∷ (d ++ (b'-' ∷ (e ++ t))))))))
dashed-append a b c d e t = simp append_assoc

join :
    (s a s1 s2 b s3 s4 c s5 s6 d s7 s8 e t : Text)
    → s ≡ a ++ s1
    → s1 ≡ b'-' ∷ s2
    → s2 ≡ b ++ s3
    → s3 ≡ b'-' ∷ s4
    → s4 ≡ c ++ s5
    → s5 ≡ b'-' ∷ s6
    → s6 ≡ d ++ s7
    → s7 ≡ b'-' ∷ s8
    → s8 ≡ e ++ t
    → s ≡ dashed a b c d e ++ t
join s a s1 s2 b s3 s4 c s5 s6 d s7 s8 e t e1 e2 e3 e4 e5 e6 e7 e8 e9 =
    cc (dashed-append a b c d e t)

fingerprint_re_sound :
    (s : Text)
    → fingerprint_re s ≡ true
    → (f t : Text) × IsUuid f × (s ≡ f ++ t) × (at_end t ≡ true)
unfolding fingerprint_re
fingerprint_re_sound s h =
    let (a, s1, ga, e1, h1) = hex_run_sound _ 8 s h in
    let (s2, e2, h2) = hyphen_sound _ s1 h1 in
    let (b, s3, gb, e3, h3) = hex_run_sound _ 4 s2 h2 in
    let (s4, e4, h4) = hyphen_sound _ s3 h3 in
    let (c, s5, gc, e5, h5) = hex_run_sound _ 4 s4 h4 in
    let (s6, e6, h6) = hyphen_sound _ s5 h5 in
    let (d, s7, gd, e7, h7) = hex_run_sound _ 4 s6 h6 in
    let (s8, e8, h8) = hyphen_sound _ s7 h7 in
    let (e, t, ge, e9, h9) = hex_run_sound _ 12 s8 h8 in
    (
      dashed a b c d e,
      t,
      record {
        a = a;
        b = b;
        c = c;
        d = d;
        e = e;
        group_a = ga;
        group_b = gb;
        group_c = gc;
        group_d = gd;
        group_e = ge;
        shape = refl;
      },
      join _ _ _ _ _ _ _ _ _ _ _ _ _ _ _ e1 e2 e3 e4 e5 e6 e7 e8 e9,
      h9,
    )

last_group : (e : Text) → IsGroup 12 e → hex_run 12 at_end e ≡ true
unfolding at_end
last_group e g = rw append-nil at (hex_run_complete at_end 12 e [] g refl)

fingerprint_re_complete : (s : Text) → IsUuid s → fingerprint_re s ≡ true
unfolding fingerprint_re
fingerprint_re_complete s u = rw u.shape (
    hex_run_complete _ 8 u.a _ u.group_a (
      hyphen_complete _ _ (
        hex_run_complete _ 4 u.b _ u.group_b (
          hyphen_complete _ _ (
            hex_run_complete _ 4 u.c _ u.group_c (
              hyphen_complete _ _ (
                hex_run_complete _ 4 u.d _ u.group_d
                  (hyphen_complete _ _ (last_group u.e u.group_e)))))))))

is_hex-ink : (c : ℕ) → is_hex c ≡ true → is_space c ≡ false
unfolding is_hex is_space
is_hex-ink c h = ground arith

group-HasNoSpace : (g : Text) → All (λ c. is_hex c ≡ true) g → HasNoSpace g
group-HasNoSpace [] h = tt
group-HasNoSpace (c ∷ g) h = (is_hex-ink c h.0, group-HasNoSpace g h.1)

hyphen-ink : is_space b'-' ≡ false
unfolding is_space
hyphen-ink = refl

HasNoSpace-dash :
    (g t : Text) → All (λ c. is_hex c ≡ true) g → HasNoSpace t → HasNoSpace (g ++ (b'-' ∷ t))
HasNoSpace-dash g t h k =
    All-append (λ c. is_space c ≡ false) g (b'-' ∷ t) (group-HasNoSpace g h) (hyphen-ink, k)

IsUuid-HasNoSpace : (s : Text) → IsUuid s → HasNoSpace s
IsUuid-HasNoSpace s u = rw u.shape (
    HasNoSpace-dash u.a _ u.group_a.1 (
      HasNoSpace-dash u.b _ u.group_b.1 (
        HasNoSpace-dash u.c _ u.group_c.1
          (HasNoSpace-dash u.d _ u.group_d.1 (group-HasNoSpace u.e u.group_e.1)))))

-- A stripped text does not end in the line feed that `$` lets pass.
line_feed-ne-strip : (raw f : Text) → strip raw ≢ f ++ (10 ∷ [])
unfolding is_space
line_feed-ne-strip raw f h =
    let e : f ++ (10 ∷ []) ≡ rstrip f =
      sym h ∙ sym (rstrip-strip raw) ∙ ap rstrip h ∙ rstrip_blank f (10 ∷ []) (refl, tt) in
    omega (arith, ap length e, length-append f (10 ∷ []), length-rstrip-le f)

accepted-IsUuid : (raw : Text) → fingerprint_re (strip raw) ≡ true → IsUuid (strip raw)
accepted-IsUuid raw h =
    let (f, t, u, e, stop) = fingerprint_re_sound (strip raw) h in
    elim (at_end_sound t stop) [
      | inl end ↦ subst IsUuid (sym (e ∙ ap (λ r. f ++ r) end ∙ append-nil f)) u
      | inr line_feed ↦ absurd (line_feed-ne-strip raw f (e ∙ ap (λ r. f ++ r) line_feed))
    ]

normalize_fingerprint-strip :
    (raw f : Text) → normalize_fingerprint (some raw) ≡ some f → (f ≡ strip raw) × IsUuid f
unfolding normalize_fingerprint
normalize_fingerprint-strip raw f h = elim (Bool-cases (fingerprint_re (strip raw))) [
  | inl accepted ↦
      let e : f ≡ strip raw = ground arith in
      (e, subst IsUuid (sym e) (accepted-IsUuid raw accepted))
  | inr refused ↦ absurd (ground arith)
]

-- What survives is a UUID, whatever header came in.
pub normalize_fingerprint-IsUuid :
    (raw : Option Text) (f : Text) → normalize_fingerprint raw ≡ some f → IsUuid f
unfolding normalize_fingerprint
normalize_fingerprint-IsUuid none f h = cc
normalize_fingerprint-IsUuid (some raw) f h = (normalize_fingerprint-strip raw f h).1

pub normalize_fingerprint_around :
    (w f v : Text)
    → IsBlank w
    → IsUuid f
    → IsBlank v
    → normalize_fingerprint (some (w ++ (f ++ v))) ≡ some f
unfolding normalize_fingerprint
normalize_fingerprint_around w f v hw u hv =
    rw (strip_around w f v hw (IsUuid-HasNoSpace f u) hv, fingerprint_re_complete f u)

-- A header gives a fingerprint exactly if it is that fingerprint between white space, and the
-- fingerprint is a UUID: five groups of 8, 4, 4, 4 and 12 hexadecimal digits of either case,
-- joined by hyphens.
pub normalize_fingerprint_iff :
    (raw f : Text)
    → (normalize_fingerprint (some raw) ≡ some f)
      ↔ ((w v : Text) × IsBlank w × IsBlank v × (raw ≡ w ++ (f ++ v)) × IsUuid f)
normalize_fingerprint_iff raw f = (
  λ h.
      let (e, u) = normalize_fingerprint-strip raw f h in
      let (w, v, hw, hv, cut) = strip_split raw in
      (w, v, hw, hv, cut ∙ ap (λ t. w ++ (t ++ v)) (sym e), u),
  λ (w, v, hw, hv, e, u). rw e (normalize_fingerprint_around w f v hw u hv),
)

-- Normalizing a second time changes nothing.
pub normalize_fingerprint_idem :
    (raw : Option Text)
    → normalize_fingerprint (normalize_fingerprint raw) ≡ normalize_fingerprint raw
unfolding normalize_fingerprint
normalize_fingerprint_idem raw = elim (Option-cases (normalize_fingerprint raw)) [
  | inl absent ↦ rw (absent, normalize_fingerprint)
  | inr (f, found) ↦ rw found (
      rw append-nil at
        (normalize_fingerprint_around [] f [] tt (normalize_fingerprint-IsUuid raw f found) tt))
]
