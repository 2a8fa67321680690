-- ===== src/Exec/Ensures.antt =====
-- What a computation may raise and return in one world, whatever was called before: rules for each
-- construct.
use request_o_matic.Base.{◌≡◌, refl, if◌then◌else◌, Bool, true, false, List}
use request_o_matic.Exec.{
  Exception, Result, ok, raised, Call, World, Exec, pure, throw, lift, attempt, ◌>>=◌, resume, note,
  when,
}

abbrev pub Outcome : {A : Type 0} → (Exception → Type 0) → (A → Type 0) → Result A → Type 0
Outcome P Q (ok a) = Q a
Outcome P Q (raised e) = P e

abbrev pub Anything : {A : Type 0} → A → Type 0
Anything a = Unit

-- An exception of `m` satisfies `P`, and a value `Q`.
pub record Ensures (w : World) (P : Exception → Type 0) {A : Type 0} (Q : A → Type 0) (m : Exec A)
    : Type 0 where
  pub at : (calls : List Call) → Outcome P Q (m w calls).0

module _ {w : World} {P : Exception → Type 0} where
  module _ {A : Type 0} {Q : A → Type 0} where
    pub Ensures-pure : (a : A) → Q a → Ensures w P Q (pure a)
    Ensures-pure a q = record { at = λ calls. q }

    pub Ensures-throw : (e : Exception) → P e → Ensures w P Q (throw e)
    Ensures-throw e p = record { at = λ calls. p }

    pub Ensures-lift : (r : Result A) → Outcome P Q r → Ensures w P Q (lift r)
    Ensures-lift r h = record { at = λ calls. h }

    pub Ensures-if :
        (b : Bool) (m k : Exec A)
        → (b ≡ true → Ensures w P Q m)
        → (b ≡ false → Ensures w P Q k)
        → Ensures w P Q (if b then m else k)
    Ensures-if true m k h h' = h refl
    Ensures-if false m k h h' = h' refl

    pub Ensures->>= :
        {B : Type 0} {R : B → Type 0} (m : Exec B) (f : B → Exec A)
        → Ensures w P R m
        → ((b : B) → R b → Ensures w P Q (f b))
        → Ensures w P Q (m >>= f)
    Ensures->>= {R} m f h k = record { at = λ calls. rest (m w calls).0 _ (h.at calls) }
      where
        rest :
            (r : Result _) (later : List Call) → Outcome P R r → Outcome P Q (resume f w r later).0
        rest (ok b) later q = (k b q).at later
        rest (raised e) later p = p

  pub Ensures-note : (c : Call) → Ensures w P Anything (note c)
  Ensures-note c = record { at = λ calls. tt }

  pub Ensures-when :
      (b : Bool) (m : Exec (Unit {0})) → Ensures w P Anything m → Ensures w P Anything (when b m)
  Ensures-when true m h = h
  Ensures-when false m h = record { at = λ calls. tt }

-- `try` ensures of the caught result what its body ensures.
pub Ensures-attempt :
    {w : World} {P P' : Exception → Type 0} {A : Type 0} {Q : A → Type 0} (m : Exec A)
    → Ensures w P Q m
    → Ensures w P' (Outcome P Q) (attempt m)
Ensures-attempt m h = record { at = λ calls. h.at calls }

-- Nothing is known of a caught result.
pub Ensures-attempt_any :
    {w : World} {P : Exception → Type 0} {A : Type 0} (m : Exec A)
    → Ensures w P Anything (attempt m)
Ensures-attempt_any m = record { at = λ calls. tt }

pub Ensures-weaken :
    {w : World} {P P' : Exception → Type 0} {A : Type 0} {Q : A → Type 0} (m : Exec A)
    → ((e : Exception) → P e → P' e)
    → Ensures w P Q m
    → Ensures w P' Q m
Ensures-weaken {w} {P} {P'} {Q} m f h = record { at = λ calls. widen (m w calls).0 (h.at calls) }
  where
    widen : (r : Result _) → Outcome P Q r → Outcome P' Q r
    widen (ok a) q = q
    widen (raised e) p = f e p
