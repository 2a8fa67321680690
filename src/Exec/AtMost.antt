-- ===== src/Exec/AtMost.antt =====
-- How often a computation makes a call of one kind: an upper bound, and rules for each construct.
use request_o_matic.Base.{ℕ, ◌+◌, ◌≤◌, Bool, true, false, List, [], ◌∷◌, arith, if◌then◌else◌}
use request_o_matic.Exec.{
  Exception, Result, ok, raised, Call, World, Exec, pure, throw, lift, attempt, ◌>>=◌, resume, http,
  complete, deliver, note, when,
}

abbrev pub count : (Call → Bool) → List Call → ℕ
count p [] = 0
count p (c ∷ cs) = (if p c then 1 else 0) + count p cs

pub record AtMost (p : Call → Bool) (n : ℕ) {A : Type 0} (m : Exec A) : Type 0 where
  pub at : (w : World) (calls : List Call) → count p (m w calls).1 ≤ count p calls + n

module _ {p : Call → Bool} where
  module _ {A : Type 0} where
    pub AtMost-pure : (a : A) → AtMost p 0 (pure a)
    AtMost-pure a = record { at = λ w calls. omega arith }

    pub AtMost-throw : (e : Exception) → AtMost p 0 (throw {A = A} e)
    AtMost-throw e = record { at = λ w calls. omega arith }

    pub AtMost-lift : (r : Result A) → AtMost p 0 (lift r)
    AtMost-lift r = record { at = λ w calls. omega arith }

    pub AtMost-attempt : {n : ℕ} (m : Exec A) → AtMost p n m → AtMost p n (attempt m)
    AtMost-attempt m h = record { at = λ w calls. h.at w calls }

    pub AtMost-if :
        {n : ℕ} (b : Bool) (m k : Exec A)
        → AtMost p n m
        → AtMost p n k
        → AtMost p n (if b then m else k)
    AtMost-if true m k h h' = h
    AtMost-if false m k h h' = h'

    pub AtMost-weaken : (k n : ℕ) (m : Exec A) → AtMost p k m → k ≤ n → AtMost p n m
    AtMost-weaken k n m h le = record { at = λ w calls. omega (arith, h.at w calls) }

    pub AtMost->>= :
        {B : Type 0} (k n : ℕ) (m : Exec B) (f : B → Exec A)
        → AtMost p k m
        → ((b : B) → AtMost p n (f b))
        → AtMost p (k + n) (m >>= f)
    AtMost->>= k n m f h g = record { at = λ w calls. rest w calls (m w calls).0 _ (h.at w calls) }
      where
        rest :
            (w : World) (calls : List Call) (r : Result _) (later : List Call)
            → count p later ≤ count p calls + k
            → count p (resume f w r later).1 ≤ count p calls + (k + n)
        rest w calls (ok b) later le = omega (arith, (g b).at w later)
        rest w calls (raised e) later le = omega arith

  pub AtMost-when : {n : ℕ} (b : Bool) (m : Exec (Unit {0})) → AtMost p n m → AtMost p n (when b m)
  AtMost-when true m h = h
  AtMost-when false m h = record { at = λ w calls. omega arith }

  -- The four ways to make a call.
  pub AtMost-http : (c : Call) → AtMost p (if p c then 1 else 0) (http c)
  AtMost-http c = record { at = λ w calls. omega arith }

  pub AtMost-complete : (c : Call) → AtMost p (if p c then 1 else 0) (complete c)
  AtMost-complete c = record { at = λ w calls. omega arith }

  pub AtMost-deliver : (c : Call) → AtMost p (if p c then 1 else 0) (deliver c)
  AtMost-deliver c = record { at = λ w calls. omega arith }

  pub AtMost-note : (c : Call) → AtMost p (if p c then 1 else 0) (note c)
  AtMost-note c = record { at = λ w calls. omega arith }
