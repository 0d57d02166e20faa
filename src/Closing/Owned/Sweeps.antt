-- ===== src/Closing/Owned/Sweeps.antt =====
-- The loops of the reconciler keep each position with the request that owns it.
use aq_trading.Prelude.{
  ℕ, ◌+◌, ◌≡◌, ◌≢◌, refl, sym, ◌∙◌, ap, some_injective, true, Option, none, some, List, [], ◌∷◌,
  keep, leb, inl, inr, Bool-cases, arith,
}
use aq_trading.Prelude.Dict.{lookup, insert, values, lookup-insert_ne}
use aq_trading.Prelude.Dict.Keyed.{keep-All, keep-Distinct, values-Distinct}
use aq_trading.Prelude.Int.{pos, leb_ℤ}
use aq_trading.Closing.Types.{
  open_, closing, close_failed, RequestStatus, Position, CloseRequest, OrderRecord, Store,
  remaining_qty, write_position,
}
use aq_trading.Closing.Updates.{is_for}
use aq_trading.Closing.Reconciler.{
  is_pending, is_submitted, is_retryable, for_each, is_zombie, has_pending_event, roll_back,
  check_zombie, detect_zombies, BrokerAnswer, known, order_not_found, api_error,
  max_not_found_retries, is_stuck, count_not_found, on_answer, ask_broker, recover_order,
  recover_request, recover_stuck_orders, may_retry, retry_event, retry_request, retry_partial_fills,
  is_orphaned, check_invariants,
}
use aq_trading.Closing.Owned.{IsOwned, Alone, IsOwned-Alone, write_position-IsOwned, KeepsOthers}
use aq_trading.Closing.Owned.Loops.{
  for_each-keeps, write-IsOwned, and-left, is_pending-eq, is_submitted-eq, is_retryable-eq,
  keeps_rows, query-Distinct, row-Holder, Sweep, Sweep-IsOwned,
}

module _ (now : ℕ) where
  check_zombie-Sweep : Sweep RequestStatus.pending (check_zombie now)
  unfolding check_zombie roll_back
  check_zombie-Sweep r s owned row = elim (Bool-cases (has_pending_event r s)) [
    | inl waits ↦ rw waits (owned, λ q other current. current)
    | inr zombie ↦
        let written =
          write-IsOwned (λ p. record p { status = open_; active_close_request_id = none }) r
            (record r { status = RequestStatus.failed; completed_at = some now }) s owned
            (IsOwned-Alone s owned r
              (row-Holder RequestStatus.pending (λ e. absurd cc) r s owned row))
            refl refl (λ p. refl) (λ p found live. absurd (live refl))
            (λ live. absurd (live refl)) in
        rw zombie (written.0, written.2)
  ]

  pub detect_zombies-IsOwned : (s : Store) → IsOwned s → IsOwned (detect_zombies now s)
  unfolding detect_zombies is_zombie
  detect_zombies-IsOwned s owned =
      Sweep-IsOwned RequestStatus.pending (check_zombie now) check_zombie-Sweep
        (keep (is_zombie now) (values s.requests)) s (query-Distinct (is_zombie now) s owned) owned
        (keeps_rows is_pending RequestStatus.pending is_pending-eq (is_zombie now) s owned
          (λ r e. and-left (is_pending r.status) _ e))

-- A loop that stays at one request.
for_each-stays :
    {A : Type 0} (Inv : Store → Type 0) (body : A → Store → Store)
    → ((a : A) (s : Store) → Inv s → Inv (body a s))
    → (rows : List A) (s : Store) → Inv s
    → Inv (for_each body rows s)
unfolding for_each
for_each-stays Inv body step [] s inv = inv
for_each-stays Inv body step (a ∷ rows) s inv =
    for_each-stays Inv body step rows (body a s) (step a s inv)

module _ (query : ℕ → BrokerAnswer) (now : ℕ) (r : CloseRequest) (start : Store) where
  -- What holds while the orders of one request are looked at.
  abbrev IsRecovering : Store → Type 0
  IsRecovering s = IsOwned s × Alone r s × KeepsOthers r start s

  count_not_found-IsRecovering :
      (o : OrderRecord) (s : Store)
      → IsRecovering s
      → IsRecovering (count_not_found query now r o s)
  unfolding count_not_found
  count_not_found-IsRecovering o s (owned, alone, others) =
      elim (Bool-cases (leb max_not_found_retries (o.reconcile_not_found_count + 1))) [
        | inl last ↦
            let written =
              write-IsOwned (λ p. record p { status = close_failed }) r
                (record r { status = RequestStatus.failed; completed_at = some now })
                (record s {
                  orders =
                      insert s.orders o.id
                        (record o { reconcile_not_found_count = o.reconcile_not_found_count + 1 });
                })
                owned alone refl refl (λ p. refl) (λ p found live. absurd (live refl))
                (λ live. absurd (live refl)) in
            rw last
              (written.0, written.1, λ q other current. written.2 q other (others q other current))
        | inr again ↦ rw again (owned, alone, others)
      ]

  on_answer-IsRecovering :
      (o : OrderRecord) (answer : BrokerAnswer) (s : Store)
      → IsRecovering s
      → IsRecovering (on_answer query now r o answer s)
  unfolding on_answer
  on_answer-IsRecovering o order_not_found s inv = count_not_found-IsRecovering o s inv
  on_answer-IsRecovering o known s inv = inv
  on_answer-IsRecovering o api_error s inv = inv

  ask_broker-IsRecovering :
      (o : OrderRecord) (id : Option ℕ) (s : Store)
      → IsRecovering s
      → IsRecovering (ask_broker query now r o id s)
  unfolding ask_broker
  ask_broker-IsRecovering o none s inv = inv
  ask_broker-IsRecovering o (some id) s inv = on_answer-IsRecovering o (query id) s inv

  recover_order-IsRecovering :
      (o : OrderRecord) (s : Store) → IsRecovering s → IsRecovering (recover_order query now r o s)
  unfolding recover_order
  recover_order-IsRecovering o s inv = ask_broker-IsRecovering o o.broker_order_id s inv

module _ (query : ℕ → BrokerAnswer) (now : ℕ) where
  recover_request-Sweep : Sweep RequestStatus.submitted (recover_request query now)
  unfolding recover_request
  recover_request-Sweep r s owned row =
      let alone =
        IsOwned-Alone s owned r
          (row-Holder RequestStatus.submitted (λ e. absurd cc) r s owned row) in
      let after =
        for_each-stays (IsRecovering query now r s) (recover_order query now r)
          (recover_order-IsRecovering query now r s) (keep (is_for r.id) (values s.orders)) s
          (owned, alone, λ q other current. current) in
      (after.0, after.2)

  pub recover_stuck_orders-IsOwned :
      (s : Store) → IsOwned s → IsOwned (recover_stuck_orders query now s)
  unfolding recover_stuck_orders is_stuck
  recover_stuck_orders-IsOwned s owned =
      Sweep-IsOwned RequestStatus.submitted (recover_request query now) recover_request-Sweep
        (keep (is_stuck now) (values s.requests)) s (query-Distinct (is_stuck now) s owned) owned
        (keeps_rows is_submitted RequestStatus.submitted is_submitted-eq (is_stuck now) s owned
          (λ r e. and-left (is_submitted r.status) _ e))

module _ (next_id : Store → ℕ) where
  retry_request-Sweep : Sweep RequestStatus.retryable (retry_request next_id)
  unfolding retry_request
  retry_request-Sweep r s owned row = elim (Bool-cases (leb_ℤ (remaining_qty r) (pos 0))) [
    | inl nothing ↦ rw nothing (owned, λ q other current. current)
    | inr left ↦
        let holder = row-Holder RequestStatus.retryable (λ e. absurd cc) r s owned row in
        let (p', at, held) = holder in
        let written =
          write-IsOwned (λ p. record p { status = closing }) r
            (record r { status = RequestStatus.pending; retry_count = r.retry_count + 1 })
            (record s { outbox = insert s.outbox (next_id s) (retry_event (next_id s) r) }) owned
            (IsOwned-Alone s owned r holder) refl refl (λ p. refl)
            (λ p found live. (
              ap (λ (p : Position). p.active_close_request_id) (some_injective (sym found ∙ at))
                  ∙ held.0,
              refl,
            ))
            (λ live. holder) in
        rw left (written.0, written.2)
  ]

  pub retry_partial_fills-IsOwned :
      (s : Store) → IsOwned s → IsOwned (retry_partial_fills next_id s)
  unfolding retry_partial_fills may_retry
  retry_partial_fills-IsOwned s owned =
      Sweep-IsOwned RequestStatus.retryable (retry_request next_id) retry_request-Sweep
        (keep may_retry (values s.requests)) s (query-Distinct may_retry s owned) owned
        (keeps_rows is_retryable RequestStatus.retryable is_retryable-eq may_retry s owned
          (λ r e. and-left (is_retryable r.status) _ e))

abbrev IsStray : Position → Store → Type 0
IsStray p s = (lookup p.id s.positions ≡ some p) × (is_orphaned p ≡ true)

orphaned-unheld : (p : Position) → is_orphaned p ≡ true → p.active_close_request_id ≡ none
unfolding is_orphaned
orphaned-unheld p e = ground arith

give_up-IsOwned :
    (p : Position) (s : Store)
    → IsOwned s
    → IsStray p s
    → IsOwned (write_position (record p { status = close_failed }) s)
      × ((q : Position)
          → q.id ≢ p.id
          → IsStray q s
          → IsStray q (write_position (record p { status = close_failed }) s))
give_up-IsOwned p s owned (found, stray) = (
  write_position-IsOwned s (record p { status = close_failed }) owned
      (λ q current live same.
        let (p', at, held) = owned.2 q current live in
        let is_p : p' ≡ p = some_injective (sym at ∙ ap (λ k. lookup k s.positions) same ∙ found) in
        let unheld = orphaned-unheld p stray in absurd cc),
  λ q other is. (
    lookup-insert_ne s.positions p.id (record p { status = close_failed }) q.id other ∙ is.0,
    is.1,
  ),
)

pub check_invariants-IsOwned : (s : Store) → IsOwned s → IsOwned (check_invariants s)
unfolding check_invariants
check_invariants-IsOwned s owned =
    for_each-keeps (λ (p : Position). p.id) IsOwned IsStray
      (λ p. write_position (record p { status = close_failed })) give_up-IsOwned
      (keep is_orphaned (values s.positions)) s
      (keep-Distinct (λ (p : Position). p.id) is_orphaned (values s.positions)
        (values-Distinct (λ (p : Position). p.id) s.positions owned.0))
      owned (keep-All (λ (p : Position). p.id) is_orphaned s.positions owned.0)
