-- ===== src/Closing/Tests.antt =====
-- Runs of the closing of positions.
use aq_trading.Prelude.{ℕ, ◌≡◌, refl, Option, none, some, List, [], ◌∷◌, arith}
use aq_trading.Prelude.Dict.{lookup}
use aq_trading.Prelude.Int.{ℤ, pos}
use aq_trading.Prelude.Table.{scalar_one_or_none}
use aq_trading.Portfolio.Repo.{AssetType, sell}
use aq_trading.Closing.Types.{
  open_, closing, RequestStatus, waiting, OrderStatus, Position, CloseRequest, OutboxEvent,
  OrderRecord, Store,
}
use aq_trading.Closing.Request.{Accepted, accepted, new_request, close_position}
use aq_trading.Closing.Request.Replay.{close_position_replays}
use aq_trading.Closing.Outbox.{submit_raised}
use aq_trading.Closing.Outbox.Retries.{Try, HasEnded, run_events, run_events_ends}
use aq_trading.Closing.Updates.{Update, BrokerStatus, on_order_update}
use aq_trading.Closing.Updates.Progress.{Goes, on_order_updates, on_order_updates-Goes}
use aq_trading.Closing.Owned.{IsOwned}
use aq_trading.Closing.Steps.{Run, begin, then, close, Run-exclusive}

abbrev a_position : Position
a_position = record {
  id = 7;
  symbol = 1;
  asset_type = AssetType.stock;
  quantity = pos 10;
  status = open_;
  active_close_request_id = none;
  closed_at = none;
}

abbrev opened : Store
opened = record { positions = (7, a_position) ∷ []; requests = []; outbox = []; orders = [] }

abbrev asked : Store
unfolding close_position
asked = (close_position 7 (some 5) 100 200 1000 opened).0

abbrev an_answer : Accepted
an_answer = record {
  status_code = 201;
  close_request_id = 100;
  position_status = some closing;
  close_request_status = RequestStatus.pending;
  target_qty = pos 10;
  filled_qty = pos 0;
}

abbrev a_request : CloseRequest
unfolding new_request
a_request = new_request 7 5 100 200 1000 a_position

opened-IsOwned : IsOwned opened
opened-IsOwned = ((refl, refl, tt), tt, λ r current live. absurd cc)

closing-Run : Run opened asked
unfolding close_position asked
closing-Run = then opened asked begin (close 7 (some 5) 100 200 1000 opened)

Run-exclusive_example : a_request ≡ a_request
unfolding asked scalar_one_or_none
Run-exclusive_example =
    Run-exclusive opened asked opened-IsOwned closing-Run a_request a_request refl refl
      (λ e. absurd cc) (λ e. absurd cc) refl

abbrev an_order : OrderRecord
an_order = record {
  id = 3;
  broker_order_id = some 30;
  status = OrderStatus.pending;
  filled_qty = pos 0;
  close_request_id = none;
  broker_update_seq = none;
  last_broker_update_at = none;
  reconcile_not_found_count = 0;
}

abbrev ordered : Store
ordered = record { positions = []; requests = []; outbox = []; orders = (3, an_order) ∷ [] }

abbrev update : BrokerStatus → ℕ → Option ℤ → Update
update status qty seq = record {
  broker_order_id = 30;
  broker_status = status;
  filled_qty = pos qty;
  broker_update_seq = seq;
}

-- A fill, and then a partial fill that is late.
abbrev updates : List (ℕ × Update)
updates =
    (1, update BrokerStatus.filled 10 (some (pos 2)))
    ∷ (2, update BrokerStatus.partial_fill 4 none)
    ∷ []

abbrev filled_order : OrderRecord
filled_order = record an_order {
  status = OrderStatus.filled;
  filled_qty = pos 10;
  broker_update_seq = some (pos 2);
  last_broker_update_at = some 1;
}

abbrev filled_store : Store
filled_store = record ordered { orders = (3, filled_order) ∷ [] }

on_order_updates-Goes_example : Goes ordered.orders filled_store.orders
unfolding on_order_updates on_order_update scalar_one_or_none
on_order_updates-Goes_example =
    on_order_updates-Goes updates ordered filled_store (refl, refl, tt) refl

abbrev an_event : OutboxEvent
an_event = record {
  id = 200;
  close_request_id = 100;
  symbol = 1;
  side = sell;
  qty = pos 10;
  status = waiting;
  retry_count = 0;
  processed_at = none;
}

-- The market data does not answer.
abbrev silent : Try
silent = record { quote = none; submit = λ price. submit_raised; now = 2000 }

run_events_ends_example :
    (e : OutboxEvent) × (lookup 200
        (run_events (pos 1) 200 (silent ∷ silent ∷ silent ∷ []) asked).outbox
      ≡ some e)
    × HasEnded e
unfolding asked scalar_one_or_none
run_events_ends_example =
    run_events_ends (pos 1) 200 (silent ∷ silent ∷ silent ∷ []) asked an_event refl refl refl
      (ground arith) (ground arith)

close_position_replays_example :
    close_position 7 (some 5) 101 201 2000 asked
    ≡ (asked, accepted (record an_answer { status_code = 200 }))
unfolding asked scalar_one_or_none
close_position_replays_example =
    close_position_replays 7 5 100 200 1000 opened asked an_answer (refl, refl, tt) refl refl refl
      101 201 2000
