-- ===== src/Worker/Publisher/Drain.antt =====
-- The publisher's rounds come to an end: each event is tried at most four times.
use veyaan_core_backend.Prelude.{
  ℕ, suc, ◌+◌, ◌-◌, ◌*◌, ◌≤◌, ◌<◌, true, List, [], ◌∷◌, ◌≡◌, refl, ap, sym, subst, arith, select,
  update, length, if◌then◌else◌, Bool, false, not, any, ◌⊎◌, inl, inr, Bool-cases, ◌∙◌,
}
use veyaan_core_backend.Python.{Result, ok, err}
use veyaan_core_backend.Database.{LogLevel, Environment, World}
use veyaan_core_backend.Database.Session.{
  Session, Tx, pure, commit, continue, ◌>>◌, close, with_session,
}
use veyaan_core_backend.Database.Keeps.{open_session}
use veyaan_core_backend.Outbox.Model.{OutboxEvent, is_pending}
use veyaan_core_backend.Outbox.Repository.{get_unpublished}
use veyaan_core_backend.Outbox.Backlog.{
  Distinct, All, budget, backlog, backlog-le, select-pending, get_unpublished-nil, written,
  backlog-written, Distinct-written,
}
use veyaan_core_backend.Outbox.Batches.{Waits, IsBatch, get_unpublished-IsBatch, Waits-written}
use veyaan_core_backend.Worker.Publisher.{
  batch_size, publish_event, publish_all, publish_batch, process_batch, goes_on, start,
}
use veyaan_core_backend.Worker.Publisher.Attempts.{
  Spent, Tried, publish_event-Tried, publish_event-ok,
}

-- No two rows with one id, and every row is due at the time `t`.
pub record IsDue (t : ℕ) (o : List OutboxEvent) : Type 0 where
  pub distinct : Distinct o
  pub due : All (λ e. e.available_at ≤ t) o

due-written :
    (t : ℕ) (f : OutboxEvent → OutboxEvent) (i : ℕ) (o : List OutboxEvent)
    → ((r : OutboxEvent) → (f r).available_at ≡ r.available_at)
    → All (λ e. e.available_at ≤ t) o
    → All (λ e. e.available_at ≤ t) (written f i o)
unfolding update
due-written t f i [] keep h = tt
due-written t f i (e ∷ o) keep h = (ground (arith, keep e), due-written t f i o keep h.1)

-- What a number of attempts leaves of the outbox.
record Drained (t n : ℕ) (o o' : List OutboxEvent) : Type 0 where
  due : IsDue t o'
  less : backlog o' + n ≤ backlog o

Drained-event :
    (t : ℕ) (o : List OutboxEvent) (e : OutboxEvent) (x : Session)
    → IsDue t o
    → Waits o e
    → Spent o e x
    → Drained t 1 o x.working.outbox
Drained-event t o e x d w s = rw s.outbox (record {
  due = record {
    distinct = Distinct-written s.write e.id o s.same_id d.distinct;
    due = due-written t s.write e.id o s.same_time d.due;
  };
  less =
      let exact : backlog (written s.write e.id o) + budget e ≡ backlog o + budget (s.write e) =
        backlog-written s.write e.id o e d.distinct w.0 in
      let less : budget (s.write e) < budget e = s.spends w.1 in omega arith;
})

Drained-trans :
    {t n m : ℕ} {o p q : List OutboxEvent} (k : ℕ)
    → n + m ≡ k
    → Drained t n o p
    → Drained t m p q
    → Drained t k o q
Drained-trans k e a b = record { due = b.due; less = omega (arith, a.less, b.less) }

-- The loop over a batch that returns has taken at least one attempt for each event.
publish_all-Drained :
    (t : ℕ) (env : Environment) (events : List OutboxEvent) (n k : ℕ) (x : Session)
    → IsDue t x.working.outbox
    → IsBatch x.working.outbox events
    → (publish_all env events n x).0 ≡ ok k
    → Drained t (length events) x.working.outbox (publish_all env events n x).1.working.outbox
unfolding publish_all
publish_all-Drained t env [] n k x d batch h = record { due = d; less = omega arith }
publish_all-Drained t env (e ∷ events) n k x d batch h =
    let (r, y) = publish_event env e x in
    after r y (publish_event-Tried env e x) (λ m z. publish_all-Drained t env events m k z) h
  where
    rest : Bool → Tx ℕ
    rest sent = publish_all env events (if sent then n + 1 else n)

    after :
        (r : Result Bool) (y : Session)
        → Tried x.working.outbox e r y
        → ((m : ℕ) (z : Session)
            → IsDue t z.working.outbox
            → IsBatch z.working.outbox events
            → (publish_all env events m z).0 ≡ ok k
            → Drained t
                (length events)
                z.working.outbox
                (publish_all env events m z).1.working.outbox)
        → (continue r rest y).0 ≡ ok k
        → Drained t (suc (length events)) x.working.outbox (continue r rest y).1.working.outbox
    after (err f) y tried again h = cc h
    after (ok sent) y spent again h =
        let first : Drained t 1 x.working.outbox y.working.outbox =
          Drained-event t x.working.outbox e y d batch.1.0 spent in
        let waits : All (Waits y.working.outbox) events = rw spent.outbox (
          Waits-written spent.write e.id x.working.outbox events spent.same_id batch.0.0
            batch.1.1) in
        Drained-trans (suc (length events)) (omega arith) first
          (again (if sent then n + 1 else n) y first.due (batch.0.1, waits) h)

publish_all-ok :
    (env : Environment) (events : List OutboxEvent) (n : ℕ) (x : Session)
    → env.logs LogLevel.warning ≡ true
    → (k : ℕ) × ((publish_all env events n x).0 ≡ ok k)
unfolding publish_all
publish_all-ok env [] n x logs = (n, refl)
publish_all-ok env (e ∷ events) n x logs =
    let (sent, returned) = publish_event-ok env e x logs in
    let y = (publish_event env e x).1 in
    let (k, ended) = publish_all-ok env events (if sent then n + 1 else n) y logs in
    (k, rw returned ended)

publish_batch-Drained :
    (t : ℕ) (env : Environment) (events : List OutboxEvent) (k : ℕ) (x : Session)
    → IsDue t x.working.outbox
    → IsBatch x.working.outbox events
    → (publish_batch env events x).0 ≡ ok k
    → Drained t (length events) x.working.outbox (publish_batch env events x).1.working.outbox
unfolding publish_batch
publish_batch-Drained t env [] k x d batch h = record { due = d; less = omega arith }
publish_batch-Drained t env (e ∷ events) k x d batch h =
    let (r, y) = publish_all env (e ∷ events) 0 x in
    committed r y (λ j. publish_all-Drained t env (e ∷ events) 0 j x d batch) h
  where
    committed :
        (r : Result ℕ) (y : Session)
        → ((j : ℕ) → r ≡ ok j → Drained t (suc (length events)) x.working.outbox y.working.outbox)
        → (continue r (λ published. (commit >> pure published)) y).0 ≡ ok k
        → Drained t
            (suc (length events))
            x.working.outbox
            (continue r (λ published. (commit >> pure published)) y).1.working.outbox
    committed (ok j) y drained h = drained j refl
    committed (err f) y drained h = cc h

publish_batch-ok :
    (env : Environment) (events : List OutboxEvent) (x : Session)
    → env.logs LogLevel.warning ≡ true
    → (k : ℕ) × ((publish_batch env events x).0 ≡ ok k)
unfolding publish_batch
publish_batch-ok env [] x logs = (0, refl)
publish_batch-ok env (e ∷ events) x logs =
    let (k, ended) = publish_all-ok env (e ∷ events) 0 x logs in (k, rw ended refl)

-- Whether the loop is still running after its rounds.
abbrev pub survives : List Environment → World → Bool
survives [] w = true
survives (env ∷ rounds) w =
    let (ended, after) = with_session (process_batch env) w in
    let rest = survives rounds after in if goes_on env ended then rest else false

closed :
    {A : Type 0} (r : Result A) (a : A) (y : Session)
    → r ≡ ok a
    → (close r y).1.database ≡ y.working
closed r a y h = rw h refl

returned : {A : Type 0} (r : Result A) (a : A) (y : Session) → r ≡ ok a → (close r y).0 ≡ ok a
returned r a y h = rw h refl

module _ (env : Environment) (w : World) where
  abbrev batch : List OutboxEvent
  batch = get_unpublished env.now batch_size w.database

  abbrev round : World
  round = (with_session (process_batch env) w).1

  abbrev ended : Result ℕ
  ended = (process_batch env (open_session w)).0

  round-ok : (k : ℕ) → ended ≡ ok k → (with_session (process_batch env) w).0 ≡ ok k
  round-ok k h = returned ended k (process_batch env (open_session w)).1 h

  -- A round with a logger that takes its calls returns.
  process_batch-ok : env.logs LogLevel.warning ≡ true → (k : ℕ) × (ended ≡ ok k)
  unfolding process_batch
  process_batch-ok logs = publish_batch-ok env batch (open_session w) logs

module _ (t : ℕ) (env : Environment) (w : World) (d : IsDue t w.database.outbox) where
  round-Drained :
      (k : ℕ)
      → (ended env w) ≡ ok k
      → Drained t (length (batch env w)) w.database.outbox (round env w).database.outbox
  unfolding process_batch
  round-Drained k h =
      let (r, y) = publish_batch env (batch env w) (open_session w) in
      subst (λ db. Drained t (length (batch env w)) w.database.outbox db.outbox)
        (sym (closed r k y h))
        (publish_batch-Drained t env (batch env w) k (open_session w) d
          (get_unpublished-IsBatch env.now batch_size w.database d.distinct) h)

  -- A (round env w) that returns takes something of the backlog, if any is left.
  round-less :
      (k : ℕ)
      → (ended env w) ≡ ok k
      → t ≤ env.now
      → (events : List OutboxEvent) → (batch env w) ≡ events
      → backlog (round env w).database.outbox ≤ backlog w.database.outbox - 1
  round-less k h later [] e =
      let none_left : backlog w.database.outbox ≡ 0 =
        get_unpublished-nil t env.now 99 w.database d.due later e in
      omega (arith, (round-Drained k h).less, none_left)
  round-less k h later (x ∷ events) e =
      let some_taken : length (batch env w) ≡ suc (length events) = ap length e in
      omega (arith, (round-Drained k h).less, some_taken)

-- Every round is at the time `t` or later, and a logger that takes no keywords in a warning takes none in
-- an error.
abbrev pub AllAfter : ℕ → List Environment → Type 0
AllAfter t [] = Unit {0}
AllAfter t (env ∷ rounds) =
    ((t ≤ env.now) × (env.logs LogLevel.error ≡ env.logs LogLevel.warning)) × AllAfter t rounds

-- A round raised, and its logger, which takes no keywords, ended the loop.
abbrev pub Ended : List Environment → World → Type 0
Ended rounds w =
    (any (λ env. not (env.logs LogLevel.warning)) rounds ≡ true) × (survives rounds w ≡ false)

-- A round either returns, or raises with a logger that takes no keywords.
returns :
    (t : ℕ) (env : Environment) (w : World)
    → IsDue t w.database.outbox
    → env.logs LogLevel.error ≡ env.logs LogLevel.warning
    → ((k : ℕ) × (ended env w ≡ ok k))
      ⊎ (env.logs LogLevel.warning ≡ false)
        × (goes_on env (with_session (process_batch env) w).0 ≡ false)
returns t env w d same = elim (Bool-cases (env.logs LogLevel.warning)) [
  | inl logs ↦ inl (process_batch-ok env w logs)
  | inr silent ↦ let (r, y) = process_batch env (open_session w) in raised r y silent
]
  where
    raised :
        (r : Result ℕ) (y : Session)
        → env.logs LogLevel.warning ≡ false
        → ((k : ℕ) × (r ≡ ok k))
          ⊎ (env.logs LogLevel.warning ≡ false) × (goes_on env (close r y).0 ≡ false)
    raised (ok k) y silent = inl (k, refl)
    raised (err f) y silent = inr (silent, same ∙ silent)

backlog-start :
    (t : ℕ) (rounds : List Environment) (w : World)
    → IsDue t w.database.outbox
    → AllAfter t rounds
    → (backlog (start rounds w).database.outbox ≤ backlog w.database.outbox - length rounds)
      ⊎ Ended rounds w
unfolding start any
backlog-start t [] w d after = inl (omega arith)
backlog-start t (env ∷ rounds) w d after = elim (returns t env w d after.0.1) [
  | inl (k, h) ↦
      let drained = round-Drained t env w d k h in
      let less = round-less t env w d k h after.0.0 (batch env w) refl in
      elim (backlog-start t rounds (round env w) drained.due after.1) [
        | inl rest ↦ inl (rw (round-ok env w k h) (omega (arith, less, rest)))
        | inr over ↦ inr (ground (arith, over.0), rw (round-ok env w k h) over.1)
      ]
  | inr (silent, over) ↦ inr (rw silent refl, rw over refl)
]

-- Whatever NATS, Valkey and the logger answer: when every row of the outbox is due at a time `t` and no
-- two have one id, then four rounds of the publisher at that time or later for each row, between which
-- no event is added, leave no PENDING row, each was published or has failed; or a round has raised and
-- its logger, which takes no keywords, has ended the loop.
pub start-drains :
    (t : ℕ) (rounds : List Environment) (w : World)
    → IsDue t w.database.outbox
    → AllAfter t rounds
    → 4 * length w.database.outbox ≤ length rounds
    → (select (λ e. is_pending e.status) (start rounds w).database.outbox ≡ []) ⊎ Ended rounds w
start-drains t rounds w d after enough = elim (backlog-start t rounds w d after) [
  | inl less ↦ inl (
      select-pending (start rounds w).database.outbox
        (omega (arith, less, enough, backlog-le w.database.outbox)))
  | inr over ↦ inr over
]
