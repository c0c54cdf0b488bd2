-- ===== src/Monad/Rules.antt =====
-- What an action keeps, and what holds where it ends.
use vm_file_restore_operator.Base.{◌≡◌, refl, Bool, true, false, Option, none, some, if◌then◌else◌}
use vm_file_restore_operator.Errors.{Error, Result, ok, err}
use vm_file_restore_operator.Monad.{Action, pure, ◌>>=◌, ◌>>◌, on_result, on_option}

-- From a state in `P` the action ends with a result and a state in `Q`.
pub record Ends {S A : Type 0} (P : S → Type 0) (Q : A → S → Type 0) (m : Action S A) : Type 0 where
  pub at : (s : S) → P s → Q (m s).0 (m s).1

-- The action keeps `P`, whatever it returns.
abbrev pub Keeps : {S A : Type 0} → (S → Type 0) → Action S A → Type 0
Keeps P m = Ends P (λ _. P) m

module _ {S A B : Type 0} {P : S → Type 0} {Q : B → S → Type 0} where
  pub Ends-bind :
      (m : Action S A) (f : A → Action S B)
      → Keeps P m
      → ((a : A) → Ends P Q (f a))
      → Ends P Q (m >>= f)
  unfolding ◌>>=◌
  Ends-bind m f km ef = record { at = λ s h. let (a, s') = m s in (ef a).at s' (km.at s h) }

  pub Ends-seq : (m : Action S A) (n : Action S B) → Keeps P m → Ends P Q n → Ends P Q (m >> n)
  unfolding ◌>>◌
  Ends-seq m n km en = record { at = λ s h. let (a, s') = m s in en.at s' (km.at s h) }

  pub Ends-on_result :
      (r : Result A) (failed : Error → Action S B) (done : A → Action S B)
      → ((e : Error) → Ends P Q (failed e))
      → ((a : A) → Ends P Q (done a))
      → Ends P Q (on_result r failed done)
  unfolding on_result
  Ends-on_result (ok a) failed done ef ed = ed a
  Ends-on_result (err e) failed done ef ed = ef e

  -- The branches know the answer.
  pub Ends-on_answer :
      (r : Result A) (failed : Error → Action S B) (done : A → Action S B)
      → ((e : Error) → r ≡ err e → Ends P Q (failed e))
      → ((a : A) → r ≡ ok a → Ends P Q (done a))
      → Ends P Q (on_result r failed done)
  unfolding on_result
  Ends-on_answer (ok a) failed done ef ed = ed a refl
  Ends-on_answer (err e) failed done ef ed = ef e refl

  pub Ends-on_option :
      (o : Option A) (absent : Action S B) (present : A → Action S B)
      → Ends P Q absent
      → ((a : A) → Ends P Q (present a))
      → Ends P Q (on_option o absent present)
  unfolding on_option
  Ends-on_option none absent present ea ep = ea
  Ends-on_option (some a) absent present ea ep = ep a

module _ {S B : Type 0} {P : S → Type 0} {Q : B → S → Type 0} where
  pub Ends-if :
      (b : Bool) (m n : Action S B)
      → (b ≡ true → Ends P Q m)
      → (b ≡ false → Ends P Q n)
      → Ends P Q (if b then m else n)
  Ends-if true m n em en = em refl
  Ends-if false m n em en = en refl

module _ {S A B : Type 0} {P R : S → Type 0} {Q : B → S → Type 0} where
  -- The first action leads from `P` to `R`, whatever it returns.
  pub Ends-then :
      (m : Action S A) (n : Action S B) → Ends P (λ _. R) m → Ends R Q n → Ends P Q (m >> n)
  unfolding ◌>>◌
  Ends-then m n em en = record { at = λ s h. let (a, s') = m s in en.at s' (em.at s h) }

  pub Ends-step :
      (m : Action S A) (f : A → Action S B)
      → Ends P (λ _. R) m
      → ((a : A) → Ends R Q (f a))
      → Ends P Q (m >>= f)
  unfolding ◌>>=◌
  Ends-step m f em ef = record { at = λ s h. let (a, s') = m s in (ef a).at s' (em.at s h) }

-- What holds after the first action depends on what it returned.
module _ {S A B : Type 0} {P : S → Type 0} {R : A → S → Type 0} {Q : B → S → Type 0} where
  pub Ends-given :
      (m : Action S A) (f : A → Action S B)
      → Ends P R m
      → ((a : A) → Ends (R a) Q (f a))
      → Ends P Q (m >>= f)
  unfolding ◌>>=◌
  Ends-given m f em ef = record { at = λ s h. let (a, s') = m s in (ef a).at s' (em.at s h) }

module _ {S B : Type 0} {P R : S → Type 0} {Q : B → S → Type 0} where
  pub Ends-from : (m : Action S B) → ((s : S) → P s → R s) → Ends R Q m → Ends P Q m
  Ends-from m k e = record { at = λ s h. e.at s (k s h) }

module _ {S B : Type 0} {P : S → Type 0} where
  pub Keeps-pure : (b : B) → Keeps P (pure b)
  unfolding pure
  Keeps-pure b = record { at = λ s h. h }

pub ruleset ends_rules = (Ends-bind, Ends-seq, Ends-on_result, Ends-on_option, Ends-if, Keeps-pure)
