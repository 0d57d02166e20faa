-- ===== src/Closing/Request.antt =====
-- `close_position` of backend/src/api/options.py.
pub mod Replay
use aq_trading.Prelude.{
  ℕ, Bool, true, false, Option, none, some, List, [], ◌∷◌, keep, ◌==◌, ◌&&◌, if◌then◌else◌,
}
use aq_trading.Prelude.Dict.{lookup, values}
use aq_trading.Prelude.Int.{ℤ, pos, ltb_ℤ, eqb_ℤ, abs}
use aq_trading.Prelude.Table.{Found, missing, one, multiple_results, scalar_one_or_none}
use aq_trading.Portfolio.Repo.{Side, buy, sell}
use aq_trading.Closing.Types.{
  PositionStatus, open_, closing, closed, close_retryable, close_failed, RequestStatus, EventStatus,
  waiting, Position, CloseRequest, OutboxEvent, Store, write_position, write_request, write_event,
}

-- `ClosePositionResponseV2` with its status code; the position's status is `none` for `unknown`.
pub record Accepted : Type 0 where
  pub status_code : ℕ
  pub close_request_id : ℕ
  pub position_status : Option PositionStatus
  pub close_request_status : RequestStatus
  pub target_qty : ℤ
  pub filled_qty : ℤ

-- The answer of the endpoint, or what it raises.
pub data Answer : Type 0 where
  accepted : Accepted → Answer
  key_required : Answer
  not_found : Answer
  already_closing : Option ℕ → Answer
  wrong_state : PositionStatus → Answer
  zero_quantity : Answer
  multiple_results_found : Answer

abbrev pub same_key : ℕ → ℕ → CloseRequest → Bool
same_key position_id key r = r.position_id == position_id && r.idempotency_key == key

-- The replay of a request that exists.
unfoldable pub replay : ℕ → CloseRequest → Store → Answer
replay position_id r s = accepted (record {
  status_code = 200;
  close_request_id = r.id;
  position_status = (elim (lookup position_id s.positions) [
    | none ↦ none
    | some p ↦ some p.status
  ]);
  close_request_status = r.status;
  target_qty = r.target_qty;
  filled_qty = r.filled_qty;
})

unfoldable pub side_of : ℤ → Side
side_of quantity = if ltb_ℤ (pos 0) quantity then sell else buy

module _ (position_id key request_id event_id now : ℕ) where
  unfoldable pub new_request : Position → CloseRequest
  unfolding side_of
  new_request p = record {
    id = request_id;
    position_id = position_id;
    idempotency_key = key;
    status = RequestStatus.pending;
    symbol = p.symbol;
    side = side_of p.quantity;
    asset_type = p.asset_type;
    target_qty = pos (abs p.quantity);
    filled_qty = pos 0;
    retry_count = 0;
    max_retries = 3;
    created_at = now;
    submitted_at = none;
    completed_at = none;
  }

  unfoldable pub new_event : Position → OutboxEvent
  unfolding side_of
  new_event p = record {
    id = event_id;
    close_request_id = request_id;
    symbol = p.symbol;
    side = side_of p.quantity;
    qty = pos (abs p.quantity);
    status = waiting;
    retry_count = 0;
    processed_at = none;
  }

  -- The rows of a new request, written in one commit.
  unfoldable pub create : Position → Store → Store × Answer
  unfolding new_request new_event
  create p s = (
    write_event (new_event p) (
        write_position (record p { status = closing; active_close_request_id = some request_id })
          (write_request (new_request p) s)),
    accepted (record {
      status_code = 201;
      close_request_id = request_id;
      position_status = some closing;
      close_request_status = RequestStatus.pending;
      target_qty = pos (abs p.quantity);
      filled_qty = pos 0;
    }),
  )

  -- The checks on the position's status and quantity.
  unfoldable pub begin_close : PositionStatus → Position → Store → Store × Answer
  unfolding create
  begin_close closing p s = (s, already_closing p.active_close_request_id)
  begin_close open_ p s = if eqb_ℤ p.quantity (pos 0) then (s, zero_quantity) else create p s
  begin_close status p s = (s, wrong_state status)

  unfoldable pub close_new : Option Position → Store → Store × Answer
  unfolding begin_close
  close_new none s = (s, not_found)
  close_new (some p) s = begin_close p.status p s

  unfoldable pub close_found : Found CloseRequest → Store → Store × Answer
  unfolding close_new replay
  close_found missing s = close_new (lookup position_id s.positions) s
  close_found (one r) s = (s, replay position_id r s)
  close_found multiple_results s = (s, multiple_results_found)

  -- The endpoint, with a key.
  unfoldable pub close_with_key : Store → Store × Answer
  unfolding close_found
  close_with_key s =
      close_found (scalar_one_or_none (keep (same_key position_id key) (values s.requests))) s

-- `close_position`; the header is missing or empty where the key is `none`. The ids of the new rows are a
-- uuid and the next value of the table's sequence.
unfoldable pub close_position : ℕ → Option ℕ → ℕ → ℕ → ℕ → Store → Store × Answer
unfolding close_with_key
close_position position_id none request_id event_id now s = (s, key_required)
close_position position_id (some key) request_id event_id now s =
    close_with_key position_id key request_id event_id now s
