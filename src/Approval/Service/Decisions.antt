-- ===== src/Approval/Service/Decisions.antt =====
-- What a decision on an approval needs, and what it leaves when it is refused:
-- ApprovalService.decide_approval of app/approvals/service.py.
use veyaan_core_backend.Prelude.{
  ℕ, String, Bool, true, false, not, ◌==◌, ltb, Option, none, some, ◌≡◌, refl, str_eq, if-any,
  arith,
}
use veyaan_core_backend.Python.{
  Error, Result, ok, err, api_error, attribute_error, approval_already_decided,
  invalid_decision_nonce, state_transition,
}
use veyaan_core_backend.Database.{Database, Environment, World}
use veyaan_core_backend.Database.Session.{Tx, raise, pure, with_session, case_found}
use veyaan_core_backend.Database.Keeps.{Keeps}
use veyaan_core_backend.Database.Atomic.{
  Committed, Atomic, Atomic-pure, Atomic-if, atomic_rules, committed_rules, with_session-Atomic,
}
use veyaan_core_backend.Command.StateMachine.Atomicity.{Keeps-transition}
use veyaan_core_backend.Command.Service.Atomicity.{Keeps-is_active-Committed}
use veyaan_core_backend.Approval.Model.{Approval, pending, same_status}
use veyaan_core_backend.Approval.Repository.{find_approval}
use veyaan_core_backend.EmergencyStop.Service.{create_audit_log}
use veyaan_core_backend.Outbox.Repository.{add_event}
use veyaan_core_backend.Approval.Service.{
  Decision, on_refusal, notify_queued, queue_approved, reject_awaiting, apply_decision, decide,
  expire_now, already_decided, on_approval, decide_approval,
}

module _ {d : Database} (env : Environment) where
  Keeps-on_refusal-Committed : (e : Error) → Keeps (Committed d) (on_refusal e)
  Keeps-on_refusal-Committed (state_transition i) = search committed_rules
  Keeps-on_refusal-Committed e = search committed_rules

  Keeps-notify-Committed : (event_id i : ℕ) → Keeps (Committed d) (notify_queued env event_id i)
  unfolding notify_queued add_event
  Keeps-notify-Committed event_id i = search committed_rules depth 12

  Keeps-apply-Committed :
      (owner_id event_id : ℕ) (approve : Bool) (i : ℕ)
      → Keeps (Committed d) (apply_decision env owner_id event_id approve i)
  unfolding apply_decision queue_approved reject_awaiting
  Keeps-apply-Committed owner_id event_id approve i =
      search
        (
          committed_rules, Keeps-transition, Keeps-on_refusal-Committed, Keeps-notify-Committed,
          Keeps-is_active-Committed,
        )
        depth 14

  Atomic-decide :
      (owner_id event_id : ℕ) (approve : Bool) (remark : Option String) (a : Approval)
      → Atomic d (decide env owner_id event_id approve remark a)
  unfolding decide create_audit_log
  Atomic-decide owner_id event_id approve remark a =
      search (atomic_rules, Keeps-apply-Committed) depth 14

  Atomic-on_approval :
      (owner_id event_id : ℕ) (approve : Bool) (nonce : String) (remark : Option String)
      (a : Approval)
      → ltb a.expires_at env.now ≡ false
      → Atomic d (on_approval env owner_id event_id approve nonce remark a)
  unfolding on_approval already_decided
  Atomic-on_approval owner_id event_id approve nonce remark a fresh =
      Atomic-if (not (a.owner_id == owner_id)) _ _ (Atomic-pure none) (
        Atomic-if (not (same_status a.status pending)) _ _ (search atomic_rules) (
          if-any (Atomic d) (ltb a.expires_at env.now) _ _ (λ h. ground arith)
            (λ _. search (atomic_rules, Atomic-decide) depth 8)))

-- What a decision needs: the owner, an open approval in its time, and the nonce of its hash.
pub record Authorized (env : Environment) (owner_id : ℕ) (nonce : String) (a : Approval)
    : Type 0 where
  pub owner : (a.owner_id == owner_id) ≡ true
  pub is_open : same_status a.status pending ≡ true
  pub in_time : ltb a.expires_at env.now ≡ false
  pub matches : str_eq (env.sha256 nonce) a.decision_nonce_hash ≡ true

abbrev pub is_decided : Result (Option Decision) → Bool
is_decided (ok (some d)) = true
is_decided _ = false

module _ (env : Environment) (owner_id event_id : ℕ) (nonce : String) (a : Approval) where
  -- A decision that is returned was authorized.
  abbrev Checks : Tx (Option Decision) → Type 0
  Checks m = (w : World) → is_decided (with_session m w).0 ≡ true → Authorized env owner_id nonce a

  Checks-refused : (e : Error) → Checks (raise e)
  Checks-refused e w h = ground arith

  not-false : (b : Bool) → not b ≡ false → b ≡ true
  not-false b h = ground arith

  on_approval-Authorized :
      (approve : Bool) (remark : Option String)
      → Checks (on_approval env owner_id event_id approve nonce remark a)
  unfolding on_approval already_decided expire_now
  on_approval-Authorized approve remark =
      if-any Checks (not (a.owner_id == owner_id)) _ _ (λ _ w h. ground arith)
        (λ owner.
          if-any Checks (not (same_status a.status pending)) _ _
            (λ _.
              if-any Checks env.loads_enum _ _
                (λ _. Checks-refused (api_error approval_already_decided 400))
                (λ _. Checks-refused attribute_error))
            (λ is_open.
              if-any Checks (ltb a.expires_at env.now) _ _ (λ _ w h. ground arith)
                (λ in_time.
                  if-any Checks (not (str_eq (env.sha256 nonce) a.decision_nonce_hash)) _ _
                    (λ _. Checks-refused (api_error invalid_decision_nonce 400))
                    (λ matched w h. record {
                      owner = not-false (a.owner_id == owner_id) owner;
                      is_open = not-false (same_status a.status pending) is_open;
                      in_time = in_time;
                      matches = not-false (str_eq (env.sha256 nonce) a.decision_nonce_hash) matched;
                    }))))

module _ (env : Environment) (w : World) (approval_id owner_id event_id : ℕ)
    (decision nonce : String) (remark : Option String) where
  abbrev call_of : Result (Option Decision) × World
  call_of = with_session (decide_approval env approval_id owner_id event_id decision nonce remark) w

  abbrev on_found : Option Approval → Tx (Option Decision)
  on_found o =
      case_found o (pure none)
        (λ a. on_approval env owner_id event_id (str_eq decision "approve") nonce remark a)

  on_found-atomic :
      (o : Option Approval) (e : Error)
      → ((a : Approval) → o ≡ some a → ltb a.expires_at env.now ≡ false)
      → (with_session (on_found o) w).0 ≡ err e
      → (with_session (on_found o) w).1.database ≡ w.database
  on_found-atomic none e fresh h = refl
  on_found-atomic (some a) e fresh h =
      with_session-Atomic (on_found (some a)) w e
        (Atomic-on_approval env owner_id event_id (str_eq decision "approve") nonce remark a
          (fresh a refl))
        h

  -- A decision that raises on an approval whose time is not over leaves the database as it was: the
  -- approval stays undecided when its command cannot be queued.
  pub decide_approval-atomic :
      (e : Error)
      → ((a : Approval)
          → find_approval approval_id w.database ≡ some a
          → ltb a.expires_at env.now ≡ false)
      → call_of.0 ≡ err e
      → call_of.1.database ≡ w.database
  unfolding decide_approval
  decide_approval-atomic e fresh h =
      on_found-atomic (find_approval approval_id w.database) e fresh h

  on_found-Authorized :
      (o : Option Approval)
      → is_decided (with_session (on_found o) w).0 ≡ true
      → (a : Approval) × (o ≡ some a) × Authorized env owner_id nonce a
  on_found-Authorized none h = ground arith
  on_found-Authorized (some a) h = (
    a,
    refl,
    on_approval-Authorized env owner_id event_id nonce a (str_eq decision "approve") remark w h,
  )

  -- A decision is made only by the owner of an approval that is pending and in its time, with the
  -- nonce whose hash the approval keeps.
  pub decide_approval-Authorized :
      is_decided call_of.0 ≡ true
      → (a : Approval) × (find_approval approval_id w.database ≡ some a)
        × Authorized env owner_id nonce a
  unfolding decide_approval
  decide_approval-Authorized h = on_found-Authorized (find_approval approval_id w.database) h
