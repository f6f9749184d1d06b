-- ===== src/Database/Leads.antt =====
-- Operations that start from tables as they were committed and end within a relation.
use veyaan_core_backend.Prelude.{Bool, true, false, Option, none, some, if◌then◌else◌}
use veyaan_core_backend.Python.{Error, Result, ok, err}
use veyaan_core_backend.Database.Session.{Session, Tx, raise, continue, ◌>>=◌, case_found}
use veyaan_core_backend.Database.Keeps.{Keeps, Keeps-continue}

-- From `P` the operation ends in `Q`, whether it returns or raises.
pub record Leads {ℓ} {A : Type ℓ} (P Q : Session → Type 0) (m : Tx A) : Type ℓ where
  pub at : (x : Session) → P x → Q (m x).1

module _ {P Q : Session → Type 0} (weaken : (x : Session) → P x → Q x) where
  module _ {ℓ} {A : Type ℓ} where
    pub Leads-raise : (e : Error) → Leads P Q (raise {A = A} e)
    Leads-raise e = record { at = weaken }

    pub Leads-Keeps : (m : Tx A) → Keeps P m → Leads P Q m
    Leads-Keeps m km = record { at = λ x h. weaken (m x).1 (km.at x h) }

  module _ {ℓ κ} {A : Type ℓ} {B : Type κ} where
    Leads-continue :
        (r : Result A) (f : A → Tx B) → ((a : A) → Leads P Q (f a)) → Leads P Q (continue r f)
    Leads-continue (ok a) f lf = lf a
    Leads-continue (err e) f lf = record { at = weaken }

    -- First a part that keeps `P`, then one that leads to `Q`.
    pub Leads-bind :
        (m : Tx A) (f : A → Tx B) → Keeps P m → ((a : A) → Leads P Q (f a)) → Leads P Q (m >>= f)
    Leads-bind m f km lf = record {
      at = λ x h. let (r, x') = m x in (Leads-continue r f lf).at x' (km.at x h);
    }

module _ {P Q : Session → Type 0} where
  module _ {ℓ} {A : Type ℓ} where
    pub Leads-if :
        (b : Bool) (m n : Tx A) → Leads P Q m → Leads P Q n → Leads P Q (if b then m else n)
    Leads-if true m n lm ln = lm
    Leads-if false m n lm ln = ln

  module _ {ℓ κ} {A : Type ℓ} {B : Type κ} where
    pub Leads-case_found :
        (o : Option A) (m : Tx B) (f : A → Tx B)
        → Leads P Q m
        → ((a : A) → Leads P Q (f a))
        → Leads P Q (case_found o m f)
    Leads-case_found none m f lm lf = lm
    Leads-case_found (some a) m f lm lf = lf a

    -- First a part that leads to `Q`, then one that keeps it.
    pub Leads-then :
        (m : Tx A) (f : A → Tx B) → Leads P Q m → ((a : A) → Keeps Q (f a)) → Leads P Q (m >>= f)
    Leads-then m f lm kf = record {
      at = λ x h. let (r, x') = m x in (Keeps-continue r f kf).at x' (lm.at x h);
    }
