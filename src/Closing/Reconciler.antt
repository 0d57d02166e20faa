-- ===== src/Closing/Reconciler.antt =====
-- `Reconciler` of backend/src/workers/reconciler.py. A loop runs over the rows that its query has
-- given; each body reads the tables as the bodies before it left them.
use aq_trading.Prelude.{
  ℕ, ◌+◌, ◌*◌, Bool, true, false, not, ◌&&◌, Option, none, some, List, [], ◌∷◌, keep, any, is_some,
  ◌==◌, ltb, leb, if◌then◌else◌,
}
use aq_trading.Prelude.Dict.{lookup, values}
use aq_trading.Prelude.Int.{pos, leb_ℤ}
use aq_trading.Closing.Types.{
  PositionStatus, open_, closing, close_failed, RequestStatus, EventStatus, waiting, Position,
  CloseRequest, remaining_qty, OutboxEvent, OrderRecord, Store, write_position, write_request,
  write_event, write_order,
}
use aq_trading.Closing.Updates.{is_for}

-- Microseconds.
abbrev pub minute : ℕ
minute = 60000000

abbrev pub zombie_threshold_minutes : ℕ
zombie_threshold_minutes = 2

abbrev pub stuck_threshold_minutes : ℕ
stuck_threshold_minutes = 10

abbrev pub max_not_found_retries : ℕ
max_not_found_retries = 3

unfoldable pub is_pending : RequestStatus → Bool
is_pending RequestStatus.pending = true
is_pending _ = false

unfoldable pub is_submitted : RequestStatus → Bool
is_submitted RequestStatus.submitted = true
is_submitted _ = false

unfoldable pub is_retryable : RequestStatus → Bool
is_retryable RequestStatus.retryable = true
is_retryable _ = false

unfoldable pub is_waiting : EventStatus → Bool
is_waiting waiting = true
is_waiting _ = false

unfoldable pub is_closing : PositionStatus → Bool
is_closing closing = true
is_closing _ = false

-- `for row in rows`
unfoldable pub for_each {ℓ} : {A : Type ℓ} → (A → Store → Store) → List A → Store → Store
for_each body [] s = s
for_each body (a ∷ rest) s = for_each body rest (body a s)

-- The position of a request, if it is there, with new values.
unfoldable pub write_found : (Position → Position) → Option Position → Store → Store
write_found f none s = s
write_found f (some p) s = write_position (f p) s

unfoldable pub update_position : (Position → Position) → CloseRequest → Store → Store
unfolding write_found
update_position f r s = write_found f (lookup r.position_id s.positions) s

-- `created_at < now - 2 minutes`, with the minutes on the other side.
unfoldable pub is_zombie : ℕ → CloseRequest → Bool
unfolding is_pending
is_zombie now r = is_pending r.status && ltb (r.created_at + zombie_threshold_minutes * minute) now

-- The outbox has an event of the request that no worker has claimed.
unfoldable pub has_pending_event : CloseRequest → Store → Bool
unfolding is_waiting
has_pending_event r s =
    any (λ e. is_waiting e.status && (e.close_request_id == r.id)) (values s.outbox)

unfoldable pub roll_back : ℕ → CloseRequest → Store → Store
unfolding update_position
roll_back now r s =
    update_position (λ p. record p { status = open_; active_close_request_id = none }) r
      (write_request (record r { status = RequestStatus.failed; completed_at = some now }) s)

unfoldable pub check_zombie : ℕ → CloseRequest → Store → Store
unfolding has_pending_event roll_back
check_zombie now r s = if has_pending_event r s then s else roll_back now r s

unfoldable pub detect_zombies : ℕ → Store → Store
unfolding is_zombie check_zombie for_each
detect_zombies now s = for_each (check_zombie now) (keep (is_zombie now) (values s.requests)) s

-- What the broker answers to a query for an order.
pub data BrokerAnswer : Type 0 where
  known order_not_found api_error : BrokerAnswer

unfoldable pub is_stuck : ℕ → CloseRequest → Bool
unfolding is_submitted
is_stuck now r = is_submitted r.status && elim r.submitted_at [
  | none ↦ false
  | some at ↦ ltb (at + stuck_threshold_minutes * minute) now
]

module _ (query : ℕ → BrokerAnswer) (now : ℕ) where
  -- An order that the broker does not find; at the third time its request is given up on.
  unfoldable pub count_not_found : CloseRequest → OrderRecord → Store → Store
  unfolding update_position
  count_not_found r o s =
      let o' = record o { reconcile_not_found_count = o.reconcile_not_found_count + 1 } in
      let counted = write_order o' s in
      let given_up =
        update_position (λ p. record p { status = close_failed }) r
          (write_request (record r { status = RequestStatus.failed; completed_at = some now })
            counted) in
      if leb max_not_found_retries o'.reconcile_not_found_count then given_up else counted

  unfoldable pub on_answer : CloseRequest → OrderRecord → BrokerAnswer → Store → Store
  unfolding count_not_found
  on_answer r o order_not_found s = count_not_found r o s
  on_answer r o _ s = s

  -- An order without an id of the broker is left.
  unfoldable pub ask_broker : CloseRequest → OrderRecord → Option ℕ → Store → Store
  unfolding on_answer
  ask_broker r o none s = s
  ask_broker r o (some id) s = on_answer r o (query id) s

  unfoldable pub recover_order : CloseRequest → OrderRecord → Store → Store
  unfolding ask_broker
  recover_order r o s = ask_broker r o o.broker_order_id s

  unfoldable pub recover_request : CloseRequest → Store → Store
  unfolding recover_order for_each
  recover_request r s = for_each (recover_order r) (keep (is_for r.id) (values s.orders)) s

  unfoldable pub recover_stuck_orders : Store → Store
  unfolding is_stuck recover_request for_each
  recover_stuck_orders s = for_each recover_request (keep (is_stuck now) (values s.requests)) s

unfoldable pub may_retry : CloseRequest → Bool
unfolding is_retryable
may_retry r = is_retryable r.status && ltb r.retry_count r.max_retries

-- The new event of a retry; the database gives its id.
unfoldable pub retry_event : ℕ → CloseRequest → OutboxEvent
unfolding remaining_qty
retry_event id r = record {
  id = id;
  close_request_id = r.id;
  symbol = r.symbol;
  side = r.side;
  qty = remaining_qty r;
  status = waiting;
  retry_count = 0;
  processed_at = none;
}

module _ (next_id : Store → ℕ) where
  unfoldable pub retry_request : CloseRequest → Store → Store
  unfolding retry_event remaining_qty update_position
  retry_request r s =
      let retried =
        update_position (λ p. record p { status = closing }) r
          (write_request
            (record r { status = RequestStatus.pending; retry_count = r.retry_count + 1 })
            (write_event (retry_event (next_id s) r) s)) in
      if leb_ℤ (remaining_qty r) (pos 0) then s else retried

  unfoldable pub retry_partial_fills : Store → Store
  unfolding may_retry retry_request for_each
  retry_partial_fills s = for_each retry_request (keep may_retry (values s.requests)) s

unfoldable pub is_orphaned : Position → Bool
unfolding is_closing
is_orphaned p = is_closing p.status && not (is_some p.active_close_request_id)

unfoldable pub check_invariants : Store → Store
unfolding is_orphaned for_each
check_invariants s =
    for_each (λ p. write_position (record p { status = close_failed }))
      (keep is_orphaned (values s.positions)) s
