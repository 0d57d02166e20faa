-- ===== src/Closing/Outbox/Retries.antt =====
-- An event is tried three times at most.
use aq_trading.Prelude.{
  ℕ, ◌+◌, ◌≤◌, ◌<◌, ◌≡◌, ◌⊎◌, inl, inr, refl, ◌∙◌, subst, Bool, true, false, Option, none, some,
  List, [], ◌∷◌, leb, length, Bool-cases, arith,
}
use aq_trading.Prelude.Dict.{lookup, lookup-insert_same}
use aq_trading.Prelude.Int.{ℤ}
use aq_trading.Closing.Types.{waiting, processing, done, given_up, OutboxEvent, Store}
use aq_trading.Closing.Outbox.{
  Quote, Submission, WorkerError, max_retries, claim, handle_submit_close_order, finish_event,
  process_event,
}
use aq_trading.Closing.Reconciler.{is_waiting}

-- What the market data and the order manager answer to one run of the worker, and when.
pub record Try : Type 0 where
  pub quote : Option Quote
  pub submit : ℤ → Submission
  pub now : ℕ

-- The event is completed or failed.
abbrev pub HasEnded : OutboxEvent → Type 0
HasEnded e = (e.status ≡ done) ⊎ (e.status ≡ given_up)

module _ (cent : ℤ) where
  module _ (quote : Option Quote) (submit : ℤ → Submission) (now : ℕ) where
    -- How a run leaves its event: it is not tried again, or one more retry is counted and more are left.
    abbrev HasRun : OutboxEvent → OutboxEvent → Type 0
    HasRun e e' =
        (e'.id ≡ e.id)
        × (HasEnded e'
            ⊎ ((e'.status ≡ waiting)
                × (e'.retry_count ≡ e.retry_count + 1)
                × (e'.retry_count < max_retries)))

    finish_event-HasRun :
        (e : OutboxEvent) (error : Option WorkerError) (s : Store)
        → (e' : OutboxEvent) × (lookup e.id (finish_event cent quote submit now e error s).outbox
            ≡ some e')
          × HasRun e e'
    unfolding finish_event
    finish_event-HasRun e none s =
        (_, lookup-insert_same s.outbox e.id _ e.id refl, (refl, inl (inl refl)))
    finish_event-HasRun e (some error) s = elim (Bool-cases (leb max_retries (e.retry_count + 1))) [
      | inl last ↦ rw last (_, lookup-insert_same _ e.id _ e.id refl, (refl, inl (inr refl)))
      | inr again ↦
          rw again (
            _,
            lookup-insert_same s.outbox e.id _ e.id refl,
            (refl, inr (refl, refl, ground arith)),
          )
    ]

    process_event-HasRun :
        (e : OutboxEvent) (s : Store)
        → (e' : OutboxEvent) × (lookup e.id (process_event cent quote submit now e s).0.outbox
            ≡ some e')
          × HasRun e e'
    unfolding process_event
    process_event-HasRun e s =
        let out = handle_submit_close_order cent quote submit now e s in
        finish_event-HasRun e out.1 out.0

  -- A turn of the worker's loop that meets the event: where it is pending it is claimed and processed.
  unfoldable pub run_pending : Try → OutboxEvent → Bool → Store → Store
  run_pending t e false s = s
  run_pending t e true s =
      (process_event cent t.quote t.submit t.now (record e { status = processing }) (claim e s)).0

  unfoldable pub run_event : Try → Option OutboxEvent → Store → Store
  unfolding run_pending is_waiting
  run_event t none s = s
  run_event t (some e) s = run_pending t e (is_waiting e.status) s

  -- The turns of the loop that meet the event with the id.
  unfoldable pub run_events : ℕ → List Try → Store → Store
  run_events id [] s = s
  run_events id (t ∷ rest) s = run_events id rest (run_event t (lookup id s.outbox) s)

  -- An event that enough runs are left for.
  abbrev EndsIn : ℕ → OutboxEvent → Type 0
  EndsIn runs e =
      HasEnded e
      ⊎ ((e.status ≡ waiting)
          × (e.retry_count < max_retries)
          × (max_retries ≤ e.retry_count + runs))

  abbrev Row : ℕ → (OutboxEvent → Type 0) → Store → Type 0
  Row id P s = (e : OutboxEvent) × (lookup id s.outbox ≡ some e) × (e.id ≡ id) × P e

  run_pending-Row :
      (id runs : ℕ) (t : Try) (s : Store) (e : OutboxEvent) (waits : Bool)
      → is_waiting e.status ≡ waits
      → lookup id s.outbox ≡ some e
      → e.id ≡ id
      → EndsIn (runs + 1) e
      → Row id (EndsIn runs) (run_pending t e waits s)
  unfolding run_pending is_waiting
  run_pending-Row id runs t s e false waits found same (inl ended) = (e, found, same, inl ended)
  run_pending-Row id runs t s e false waits found same (inr (pending, below, enough)) =
      absurd (ground (arith, pending))
  run_pending-Row id runs t s e true waits found same (inl ended) = absurd (ground (arith, ended))
  run_pending-Row id runs t s e true waits found same (inr (pending, below, enough)) =
      let ran =
        (process_event cent t.quote t.submit t.now (record e { status = processing })
          (claim e s)).0 in
      let (e', found', (same', went)) =
        process_event-HasRun t.quote t.submit t.now (record e { status = processing })
          (claim e s) in
      (
        e',
        subst (λ k. lookup k ran.outbox ≡ some e') same found',
        same' ∙ same,
        elim went [
          | inl ended ↦ inl ended
          | inr (again, count, left) ↦ inr (again, left, omega (arith, count, enough))
        ],
      )

  run_events-Row :
      (id : ℕ) (runs : List Try) (s : Store)
      → Row id (EndsIn (length runs)) s
      → Row id HasEnded (run_events id runs s)
  unfolding run_events run_event run_pending
  run_events-Row id [] s (e, found, same, inl ended) = (e, found, same, ended)
  run_events-Row id [] s (e, found, same, inr (pending, below, enough)) =
      absurd (omega (arith, below, enough))
  run_events-Row id (t ∷ rest) s (e, found, same, ends) =
      run_events-Row id rest (run_event t (lookup id s.outbox) s) (
        rw (run_event, found)
          (run_pending-Row id (length rest) t s e (is_waiting e.status) refl found same
            (subst (λ n. EndsIn n e) (omega arith) ends)))

  -- A pending event that is found under its id, with a count of retries below three, is completed or failed after
  -- three turns of the worker's loop or more that claim it, whatever the market data and the order manager answer: it
  -- is still in the outbox.
  pub run_events_ends :
      (id : ℕ) (runs : List Try) (s : Store) (e : OutboxEvent)
      → lookup id s.outbox ≡ some e
      → e.id ≡ id
      → e.status ≡ waiting
      → e.retry_count < max_retries
      → 3 ≤ length runs
      → (e' : OutboxEvent) × (lookup id (run_events id runs s).outbox ≡ some e') × HasEnded e'
  run_events_ends id runs s e found same pending below enough =
      let (e', found', same', ended) =
        run_events-Row id runs s (e, found, same, inr (pending, below, omega (arith, enough))) in
      (e', found', ended)
