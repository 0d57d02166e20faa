-- ===== src/Closing/Steps.antt =====
-- The steps of the endpoint, of the workers and of the broker's updates, in any order, and what holds after
-- them.
use aq_trading.Prelude.{ℕ, ◌≡◌, sym, ◌∙◌, ap, some_injective, Option, some}
use aq_trading.Prelude.Dict.{lookup}
use aq_trading.Prelude.Int.{ℤ}
use aq_trading.Closing.Types.{CloseRequest, OutboxEvent, Store}
use aq_trading.Closing.Request.{close_position}
use aq_trading.Closing.Outbox.{Quote, Submission, claim, process_event}
use aq_trading.Closing.Updates.{Update, on_order_update}
use aq_trading.Closing.Reconciler.{
  BrokerAnswer, detect_zombies, recover_stuck_orders, retry_partial_fills, check_invariants,
}
use aq_trading.Closing.Owned.{Current, IsLive, IsOwned, IsOwned-Alone}
use aq_trading.Closing.Owned.Requests.{close_position-IsOwned, process_event-IsOwned}
use aq_trading.Closing.Owned.Updates.{IsTimely, on_order_update-IsOwned}
use aq_trading.Closing.Owned.Sweeps.{
  detect_zombies-IsOwned, recover_stuck_orders-IsOwned, retry_partial_fills-IsOwned,
  check_invariants-IsOwned,
}

-- One step on the tables; an update takes one only if its order's request is under way.
pub data Step : Store → Store → Type 0 where
  close :
      (position_id : ℕ) (key : Option ℕ) (request_id event_id now : ℕ) (s : Store)
      → Step s (close_position position_id key request_id event_id now s).0
  claimed : (e : OutboxEvent) (s : Store) → Step s (claim e s)
  worked :
      (cent : ℤ) (quote : Option Quote) (submit : ℤ → Submission) (now : ℕ) (e : OutboxEvent)
      (s : Store)
      → Step s (process_event cent quote submit now e s).0
  updated :
      (now : ℕ) (u : Update) (s s' : Store)
      → IsTimely now u s
      → on_order_update now u s ≡ some s'
      → Step s s'
  zombies : (now : ℕ) (s : Store) → Step s (detect_zombies now s)
  stuck :
      (query : ℕ → BrokerAnswer) (now : ℕ) (s : Store) → Step s (recover_stuck_orders query now s)
  retries : (next_id : Store → ℕ) (s : Store) → Step s (retry_partial_fills next_id s)
  invariants : (s : Store) → Step s (check_invariants s)

-- A run of steps from a store.
pub data Run (start : Store) : Store → Type 0 where
  begin : Run start start
  then : (s s' : Store) → Run start s → Step s s' → Run start s'

Step-IsOwned : (s s' : Store) → Step s s' → IsOwned s → IsOwned s'
unfolding claim
Step-IsOwned _ _ (close p k r e now s) owned = close_position-IsOwned p k r e now s owned
Step-IsOwned _ _ (claimed e s) owned = owned
Step-IsOwned _ _ (worked cent quote submit now e s) owned =
    process_event-IsOwned cent quote submit now e s owned
Step-IsOwned _ _ (updated now u s s' timely e) owned =
    on_order_update-IsOwned now u s s' owned timely e
Step-IsOwned _ _ (zombies now s) owned = detect_zombies-IsOwned now s owned
Step-IsOwned _ _ (stuck query now s) owned = recover_stuck_orders-IsOwned query now s owned
Step-IsOwned _ _ (retries next_id s) owned = retry_partial_fills-IsOwned next_id s owned
Step-IsOwned _ _ (invariants s) owned = check_invariants-IsOwned s owned

-- On tables in which each request under way (pending, submitted or retryable) owns its position, every run of the
-- endpoint, the outbox worker, the reconciler's loops and the order updates, in any order and any number, leaves
-- them so: the position of a request under way names that request, and its status is closing, or close_retryable
-- if the request is retryable. An order update counts as a step where its order's request is under way.
pub Run-IsOwned : (start s : Store) → Run start s → IsOwned start → IsOwned s
Run-IsOwned start _ begin owned = owned
Run-IsOwned start _ (then s s' run step) owned =
    Step-IsOwned s s' step (Run-IsOwned start s run owned)

-- No two different requests that are under way (pending, submitted or retryable) are for one position, after any run
-- of the endpoint, the outbox worker, the reconciler's loops and the order updates, in any order and any number, from
-- tables in which each request under way owns its position. An order update takes a step where its order's request, if
-- it has one, is under way.
pub Run-exclusive :
    (start s : Store)
    → IsOwned start
    → Run start s
    → (q r : CloseRequest) → Current s q
    → Current s r
    → IsLive q
    → IsLive r
    → q.position_id ≡ r.position_id
    → q ≡ r
Run-exclusive start s owned run q r at_q at_r live_q live_r same =
    let owned = Run-IsOwned start s run owned in
    let ids = IsOwned-Alone s owned r (owned.2 r at_r live_r) q at_q live_q same in
    some_injective (sym at_q ∙ ap (λ k. lookup k s.requests) ids ∙ at_r)
