-- ===== src/Outbox/Backlog.antt =====
-- How many rounds of the publisher the rows of the outbox can still take, and what a write to one
-- row does to it.
use veyaan_core_backend.Prelude.{
  ℕ, ◌+◌, ◌-◌, ◌*◌, ◌≤◌, false, ◌&&◌, ◌==◌, leb, List, [], ◌∷◌, some, ◌≡◌, refl, arith, any, find?,
  select, take, update, length, if◌then◌else◌, ==→eq, suc, inl, inr, Bool-cases, subst, ◌∙◌,
}
use veyaan_core_backend.Database.{Database}
use veyaan_core_backend.Outbox.Model.{OutboxEvent, is_pending}
use veyaan_core_backend.Outbox.Repository.{get_unpublished}

-- `id` is the primary key.
abbrev pub Distinct : List OutboxEvent → Type 0
Distinct [] = Unit {0}
Distinct (e ∷ es) = (any (λ r. r.id == e.id) es ≡ false) × Distinct es

abbrev pub All : (OutboxEvent → Type 0) → List OutboxEvent → Type 0
All P [] = Unit {0}
All P (e ∷ es) = P e × All P es

-- A PENDING row fails for good at its fourth failure.
abbrev pub budget : OutboxEvent → ℕ
budget e = if is_pending e.status then 1 + (3 - e.attempt_count) else 0

abbrev pub backlog : List OutboxEvent → ℕ
backlog [] = 0
backlog (e ∷ es) = budget e + backlog es

pub backlog-le : (es : List OutboxEvent) → backlog es ≤ 4 * length es
backlog-le [] = omega arith
backlog-le (e ∷ es) = ground (arith, backlog-le es)

pub select-pending :
    (es : List OutboxEvent) → backlog es ≡ 0 → select (λ e. is_pending e.status) es ≡ []
unfolding select
select-pending [] h = refl
select-pending (e ∷ es) h = ground (arith, select-pending es)

take-nil : (limit : ℕ) (es : List OutboxEvent) → take (suc limit) es ≡ [] → es ≡ []
unfolding take
take-nil limit [] h = refl
take-nil limit (e ∷ es) h = ground arith

select-due :
    (t n : ℕ) (es : List OutboxEvent)
    → All (λ e. e.available_at ≤ t) es
    → t ≤ n
    → select (λ e. is_pending e.status && leb e.available_at n) es ≡ []
    → backlog es ≡ 0
unfolding select
select-due t n [] due h none_due = refl
select-due t n (e ∷ es) due h none_due = elim (Bool-cases (is_pending e.status)) [
  | inl waits ↦ ground arith
  | inr past ↦ ground (arith, select-due t n es due.1 h)
]

-- Where every row is due, an empty batch means that no row is PENDING.
pub get_unpublished-nil :
    (t n limit : ℕ) (db : Database)
    → All (λ e. e.available_at ≤ t) db.outbox
    → t ≤ n
    → get_unpublished n (suc limit) db ≡ []
    → backlog db.outbox ≡ 0
unfolding get_unpublished
get_unpublished-nil t n limit db due h none_due =
    select-due t n db.outbox due h (take-nil limit _ none_due)

module _ (f : OutboxEvent → OutboxEvent) (i : ℕ) where
  abbrev pub written : List OutboxEvent → List OutboxEvent
  written es = update (λ e. e.id == i) f es

  written-miss : (es : List OutboxEvent) → any (λ r. r.id == i) es ≡ false → written es ≡ es
  unfolding any update
  written-miss [] h = refl
  written-miss (e ∷ es) h = ground (arith, written-miss es)

  pub backlog-written :
      (es : List OutboxEvent) (e : OutboxEvent)
      → Distinct es
      → find? (λ r. r.id == i) es ≡ some e
      → backlog (written es) + budget e ≡ backlog es + budget (f e)
  unfolding any update find?
  backlog-written [] e d h = ground arith
  backlog-written (r ∷ es) e d h = elim (Bool-cases (r.id == i)) [
    | inl here ↦
        let at : r.id ≡ i = ==→eq r.id i here in
        let apart : written es ≡ es =
          written-miss es (subst (λ k. any (λ x. x.id == k) es ≡ false) at d.0) in
        let first : r ≡ e = cc (rw here at h) in rw here (rw apart (rw first (omega arith)))
    | inr ne ↦ rw ne (let rest = backlog-written es e d.1 (rw ne at h) in omega (arith, rest))
  ]

  any-written :
      (j : ℕ) (es : List OutboxEvent)
      → ((e : OutboxEvent) → (f e).id ≡ e.id)
      → any (λ r. r.id == j) (written es) ≡ any (λ r. r.id == j) es
  unfolding any update
  any-written j [] keep = refl
  any-written j (e ∷ es) keep = ground (arith, keep e, any-written j es keep)

  pub Distinct-written :
      (es : List OutboxEvent)
      → ((e : OutboxEvent) → (f e).id ≡ e.id)
      → Distinct es
      → Distinct (written es)
  unfolding update
  Distinct-written [] keep d = tt
  Distinct-written (e ∷ es) keep d = elim (Bool-cases (e.id == i)) [
    | inl same ↦
        rw same (rw (keep e) (any-written e.id es keep ∙ d.0, Distinct-written es keep d.1))
    | inr ne ↦ rw ne (any-written e.id es keep ∙ d.0, Distinct-written es keep d.1)
  ]
