-- ===== src/Approval/Repository/Kept.antt =====
-- Writing approvals is a write to another table.
use veyaan_core_backend.Prelude.{ℕ, refl}
use veyaan_core_backend.Database.Session.{Session, modify}
use veyaan_core_backend.Database.Keeps.{Keeps}
use veyaan_core_backend.Kept.{IsKept}
use veyaan_core_backend.Approval.Model.{Approval}
use veyaan_core_backend.Approval.Repository.{append_approval, write_approval}

module _ {P : Session → Type 0} (r : IsKept P) where
  pub Keeps-append_approval : (a : Approval) → Keeps P (modify (append_approval a))
  unfolding append_approval
  Keeps-append_approval a =
      r.writes (append_approval a) (λ db. refl) (λ db. refl) (λ db. refl) (λ db. refl)

  pub Keeps-write_approval :
      (approval_id : ℕ) (f : Approval → Approval) → Keeps P (modify (write_approval approval_id f))
  unfolding write_approval
  Keeps-write_approval approval_id f =
      r.writes (write_approval approval_id f) (λ db. refl) (λ db. refl) (λ db. refl) (λ db. refl)
