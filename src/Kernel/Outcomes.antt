-- ===== src/Kernel/Outcomes.antt =====
-- Predicates on how a command ends.
use ooplatingsistm.Base.{◌≡◌, ◌≢◌, refl, subst}
use ooplatingsistm.Kernel.{Kernel, Outcome, ok, abort, crash, halt, out_of_patience, Cmd, and_then}

-- What holds of the result if the command succeeds.
abbrev pub Ensures : {D A : Type 0} → (A → Kernel D → Type 0) → Outcome D A → Type 0
Ensures Q (ok a k) = Q a k
Ensures Q abort = Unit
Ensures Q crash = Unit
Ensures Q halt = Unit
Ensures Q out_of_patience = Unit

module _ {D A : Type 0} where
  pub Ensures-bind :
      {B : Type 0} (P : A → Kernel D → Type 0) (Q : B → Kernel D → Type 0) (m : Outcome D A)
      (f : A → Cmd D B)
      → Ensures P m
      → ((a : A) (k : Kernel D) → P a k → Ensures Q (f a k))
      → Ensures Q (and_then m f)
  Ensures-bind P Q (ok a k) f p next = next a k p
  Ensures-bind P Q abort f p next = tt
  Ensures-bind P Q crash f p next = tt
  Ensures-bind P Q halt f p next = tt
  Ensures-bind P Q out_of_patience f p next = tt

  pub Ensures-mono :
      (P Q : A → Kernel D → Type 0) (m : Outcome D A)
      → Ensures P m
      → ((a : A) (k : Kernel D) → P a k → Q a k)
      → Ensures Q m
  Ensures-mono P Q (ok a k) p weaken = weaken a k p
  Ensures-mono P Q abort p weaken = tt
  Ensures-mono P Q crash p weaken = tt
  Ensures-mono P Q halt p weaken = tt
  Ensures-mono P Q out_of_patience p weaken = tt

  pub Ensures-apply :
      (Q : A → Kernel D → Type 0) (m : Outcome D A) {a : A} {k : Kernel D}
      → Ensures Q m
      → m ≡ ok a k
      → Q a k
  Ensures-apply Q m q e = subst (Ensures Q) e q

  pub Ensures-all :
      {B : Type 0} (Q : B → A → Kernel D → Type 0) (m : Outcome D A)
      → ((b : B) → Ensures (Q b) m)
      → Ensures (λ a k. (b : B) → Q b a k) m
  Ensures-all Q (ok a k) p = p
  Ensures-all Q abort p = tt
  Ensures-all Q crash p = tt
  Ensures-all Q halt p = tt
  Ensures-all Q out_of_patience p = tt

  pub Ensures-both :
      (P Q R : A → Kernel D → Type 0) (m : Outcome D A)
      → Ensures P m
      → Ensures Q m
      → ((a : A) (k : Kernel D) → P a k → Q a k → R a k)
      → Ensures R m
  Ensures-both P Q R (ok a k) p q both = both a k p q
  Ensures-both P Q R abort p q both = tt
  Ensures-both P Q R crash p q both = tt
  Ensures-both P Q R halt p q both = tt
  Ensures-both P Q R out_of_patience p q both = tt

-- Total correctness: the command succeeds, with a result and a state that satisfy `Q`.
abbrev pub Succeeds : {D A : Type 0} → (A → Kernel D → Type 0) → Outcome D A → Type 0
Succeeds Q (ok a k) = Q a k
Succeeds Q abort = ⊥
Succeeds Q crash = ⊥
Succeeds Q halt = ⊥
Succeeds Q out_of_patience = ⊥

module _ {D A : Type 0} where
  pub Succeeds-bind :
      {B : Type 0} (P : A → Kernel D → Type 0) (Q : B → Kernel D → Type 0) (m : Outcome D A)
      (f : A → Cmd D B)
      → Succeeds P m
      → ((a : A) (k : Kernel D) → P a k → Succeeds Q (f a k))
      → Succeeds Q (and_then m f)
  Succeeds-bind P Q (ok a k) f p next = next a k p
  Succeeds-bind P Q abort f p next = absurd p
  Succeeds-bind P Q crash f p next = absurd p
  Succeeds-bind P Q halt f p next = absurd p
  Succeeds-bind P Q out_of_patience f p next = absurd p

  pub Succeeds-mono :
      (P Q : A → Kernel D → Type 0) (m : Outcome D A)
      → Succeeds P m
      → ((a : A) (k : Kernel D) → P a k → Q a k)
      → Succeeds Q m
  Succeeds-mono P Q (ok a k) p weaken = weaken a k p
  Succeeds-mono P Q abort p weaken = p
  Succeeds-mono P Q crash p weaken = p
  Succeeds-mono P Q halt p weaken = p
  Succeeds-mono P Q out_of_patience p weaken = p

-- No assertion fails, and `Q` holds of the result if the command succeeds.
abbrev pub Avoids : {D A : Type 0} → (A → Kernel D → Type 0) → Outcome D A → Type 0
Avoids Q (ok a k) = Q a k
Avoids Q abort = ⊥
Avoids Q crash = Unit
Avoids Q halt = Unit
Avoids Q out_of_patience = Unit

module _ {D A : Type 0} where
  pub Avoids-bind :
      {B : Type 0} (P : A → Kernel D → Type 0) (Q : B → Kernel D → Type 0) (m : Outcome D A)
      (f : A → Cmd D B)
      → Avoids P m
      → ((a : A) (k : Kernel D) → P a k → Avoids Q (f a k))
      → Avoids Q (and_then m f)
  Avoids-bind P Q (ok a k) f p next = next a k p
  Avoids-bind P Q abort f p next = absurd p
  Avoids-bind P Q crash f p next = tt
  Avoids-bind P Q halt f p next = tt
  Avoids-bind P Q out_of_patience f p next = tt

  pub Avoids-mono :
      (P Q : A → Kernel D → Type 0) (m : Outcome D A)
      → Avoids P m
      → ((a : A) (k : Kernel D) → P a k → Q a k)
      → Avoids Q m
  Avoids-mono P Q (ok a k) p weaken = weaken a k p
  Avoids-mono P Q abort p weaken = absurd p
  Avoids-mono P Q crash p weaken = tt
  Avoids-mono P Q halt p weaken = tt
  Avoids-mono P Q out_of_patience p weaken = tt

-- Nothing that is not there is dereferenced, and `Q` holds of the result if the command succeeds.
abbrev pub Survives : {D A : Type 0} → (A → Kernel D → Type 0) → Outcome D A → Type 0
Survives Q (ok a k) = Q a k
Survives Q abort = Unit
Survives Q crash = ⊥
Survives Q halt = Unit
Survives Q out_of_patience = Unit

module _ {D A : Type 0} where
  pub Survives-bind :
      {B : Type 0} (P : A → Kernel D → Type 0) (Q : B → Kernel D → Type 0) (m : Outcome D A)
      (f : A → Cmd D B)
      → Survives P m
      → ((a : A) (k : Kernel D) → P a k → Survives Q (f a k))
      → Survives Q (and_then m f)
  Survives-bind P Q (ok a k) f p next = next a k p
  Survives-bind P Q abort f p next = tt
  Survives-bind P Q crash f p next = absurd p
  Survives-bind P Q halt f p next = tt
  Survives-bind P Q out_of_patience f p next = tt

  pub Survives-mono :
      (P Q : A → Kernel D → Type 0) (m : Outcome D A)
      → Survives P m
      → ((a : A) (k : Kernel D) → P a k → Q a k)
      → Survives Q m
  Survives-mono P Q (ok a k) p weaken = weaken a k p
  Survives-mono P Q abort p weaken = tt
  Survives-mono P Q crash p weaken = absurd p
  Survives-mono P Q halt p weaken = tt
  Survives-mono P Q out_of_patience p weaken = tt

  pub Survives-Ensures :
      (Q : A → Kernel D → Type 0) (m : Outcome D A) → m ≢ crash → Ensures Q m → Survives Q m
  Survives-Ensures Q (ok a k) ne q = q
  Survives-Ensures Q abort ne q = tt
  Survives-Ensures Q crash ne q = absurd (ne refl)
  Survives-Ensures Q halt ne q = tt
  Survives-Ensures Q out_of_patience ne q = tt

  pub Survives-apply :
      (Q : A → Kernel D → Type 0) (m : Outcome D A) {a : A} {k : Kernel D}
      → Survives Q m
      → m ≡ ok a k
      → Q a k
  Survives-apply Q m q e = subst (Survives Q) e q
