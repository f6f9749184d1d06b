-- ===== src/Outbox/Batches.antt =====
-- The batch that the publisher reads: PENDING rows of the outbox, each of them once.
use veyaan_core_backend.Prelude.{
  ℕ, zero, suc, Bool, true, false, ◌&&◌, ◌==◌, leb, List, [], ◌∷◌, some, ◌≡◌, refl, arith, any,
  find?, select, take, Bool-cases, inl, inr, ==_refl, find?-update_other, if-any, ◌∙◌,
}
use veyaan_core_backend.Database.{Database}
use veyaan_core_backend.Outbox.Model.{OutboxEvent, is_pending}
use veyaan_core_backend.Outbox.Repository.{get_unpublished}
use veyaan_core_backend.Outbox.Backlog.{Distinct, All, written}

-- The event is the row that its id finds, and is PENDING.
abbrev pub Waits : List OutboxEvent → OutboxEvent → Type 0
Waits o e = (find? (λ r. r.id == e.id) o ≡ some e) × (is_pending e.status ≡ true)

-- A list of such events, each of them once.
abbrev pub IsBatch : List OutboxEvent → List OutboxEvent → Type 0
IsBatch o es = Distinct es × All (Waits o) es

any-select :
    (p q : OutboxEvent → Bool) (es : List OutboxEvent)
    → any p es ≡ false
    → any p (select q es) ≡ false
unfolding any select
any-select p q [] h = refl
any-select p q (e ∷ es) h = ground (arith, any-select p q es)

any-take :
    (p : OutboxEvent → Bool) (n : ℕ) (es : List OutboxEvent)
    → any p es ≡ false
    → any p (take n es) ≡ false
unfolding any take
any-take p zero es h = refl
any-take p (suc n) [] h = refl
any-take p (suc n) (e ∷ es) h = ground (arith, any-take p n es)

-- A new first row with another id changes nothing for the events of a list.
Waits-cons :
    (r : OutboxEvent) (o l : List OutboxEvent)
    → any (λ x. x.id == r.id) l ≡ false
    → All (Waits o) l
    → All (Waits (r ∷ o)) l
unfolding any find?
Waits-cons r o [] apart h = tt
Waits-cons r o (e ∷ l) apart h = elim (Bool-cases (e.id == r.id)) [
  | inl same ↦ ground arith
  | inr ne ↦ (
    (let apart : (r.id == e.id) ≡ false = ground arith in rw apart h.0.0, h.0.1),
    Waits-cons r o l (ground arith) h.1,
  )
]

select-IsBatch :
    (n : ℕ) (o : List OutboxEvent)
    → Distinct o
    → IsBatch o (select (λ e. is_pending e.status && leb e.available_at n) o)
unfolding select find?
select-IsBatch n [] d = (tt, tt)
select-IsBatch n (e ∷ o) d =
    let due : List OutboxEvent = select (λ r. is_pending r.status && leb r.available_at n) o in
    let apart : any (λ r. r.id == e.id) due ≡ false =
      any-select (λ r. r.id == e.id) (λ r. is_pending r.status && leb r.available_at n) o d.0 in
    let (distinct, found) = select-IsBatch n o d.1 in
    let kept : All (Waits (e ∷ o)) due = Waits-cons e o due apart found in
    if-any (IsBatch (e ∷ o)) (is_pending e.status && leb e.available_at n) (e ∷ due) due
      (λ waits. ((apart, distinct), ((rw (==_refl e.id) refl, ground arith), kept)))
      (λ _. (distinct, kept))

take-IsBatch : (n : ℕ) (o es : List OutboxEvent) → IsBatch o es → IsBatch o (take n es)
unfolding take
take-IsBatch zero o es h = (tt, tt)
take-IsBatch (suc n) o [] h = h
take-IsBatch (suc n) o (e ∷ es) h =
    let rest = take-IsBatch n o es (h.0.1, h.1.1) in
    ((any-take (λ r. r.id == e.id) n es h.0.0, rest.0), (h.1.0, rest.1))

pub get_unpublished-IsBatch :
    (n limit : ℕ) (db : Database)
    → Distinct db.outbox
    → IsBatch db.outbox (get_unpublished n limit db)
unfolding get_unpublished
get_unpublished-IsBatch n limit db d = take-IsBatch limit db.outbox _ (select-IsBatch n db.outbox d)

-- A write to one row changes nothing for the events of a list that has not its id.
pub Waits-written :
    (f : OutboxEvent → OutboxEvent) (i : ℕ) (o l : List OutboxEvent)
    → ((r : OutboxEvent) → (f r).id ≡ r.id)
    → any (λ x. x.id == i) l ≡ false
    → All (Waits o) l
    → All (Waits (written f i o)) l
unfolding any
Waits-written f i o [] keep apart h = tt
Waits-written f i o (e ∷ l) keep apart h = (
  (
    find?-update_other (λ r. r.id == e.id) (λ r. r.id == i) f o (λ r. rw (keep r) refl)
          (λ r p. ground arith)
        ∙ h.0.0,
    h.0.1,
  ),
  Waits-written f i o l keep (ground arith) h.1,
)
