-- ===== src/Closing/Outbox.antt =====
-- `OutboxWorker` of backend/src/workers/outbox_worker.py, and the claim of
-- backend/src/db/repositories/outbox_repo.py. The market data and the order manager are arguments: what they
-- answer to the one call that is made of each. Prices are exact; a limit price is counted in hundredths of
-- the quote's grain.
pub mod Retries
use aq_trading.Prelude.{
  ℕ, ◌+◌, Bool, true, false, not, ◌||◌, Option, none, some, if◌then◌else◌, leb,
}
use aq_trading.Prelude.Dict.{lookup}
use aq_trading.Prelude.Int.{ℤ, pos, ◌-ℤ◌, ◌*ℤ◌, ltb_ℤ, leb_ℤ}
use aq_trading.Portfolio.Repo.{Side, buy, sell}
use aq_trading.Closing.Types.{
  PositionStatus, open_, close_failed, RequestStatus, EventStatus, waiting, processing, done,
  given_up, Position, CloseRequest, OutboxEvent, Store, write_position, write_request, write_event,
}

-- A quote; `last` is an attribute that it may lack.
pub record Quote : Type 0 where
  pub bid : ℤ
  pub ask : ℤ
  pub last : Option ℤ

-- The order manager's answer.
pub data Submission : Type 0 where
  taken refused submit_raised : Submission

pub data WorkerError : Type 0 where
  quote_timeout invalid_quote bad_quote submission_failed : WorkerError

abbrev pub max_retries : ℕ
max_retries = 3

-- `claim_pending`, for the event that the query gives.
unfoldable pub claim : OutboxEvent → Store → Store
claim e s = write_event (record e { status = processing }) s

-- The price from the last trade, for a quote whose spread is wide.
unfoldable pub price_last : Side → Option ℤ → Option ℤ
price_last side none = none
price_last sell (some last) = if ltb_ℤ (pos 0) last then some (last *ℤ pos 90) else none
price_last buy (some last) = if ltb_ℤ (pos 0) last then some (last *ℤ pos 110) else none

unfoldable pub price_spread : Side → Quote → ℤ
price_spread sell q = q.bid *ℤ pos 95
price_spread buy q = q.ask *ℤ pos 105

-- `max(a, b)`
abbrev pub max_ℤ : ℤ → ℤ → ℤ
max_ℤ a b = if ltb_ℤ a b then b else a

-- `(ask - bid) / bid > 0.20`, for a positive bid
unfoldable pub is_wide : Quote → Bool
is_wide q = ltb_ℤ q.bid ((q.ask -ℤ q.bid) *ℤ pos 5)

module _ (cent : ℤ) where
  -- The limit price of the order; `cent` is the minimum.
  unfoldable pub limit_price : Side → Quote → Option ℤ
  unfolding price_last price_spread is_wide
  limit_price side q =
      if is_wide q
      then elim (price_last side q.last) [ none ↦ none | some p ↦ some (max_ℤ p cent) ]
      else some (max_ℤ (price_spread side q) cent)

  -- The request and the position of an order that is refused or given up on.
  unfoldable pub fail_position : CloseRequest → Option Position → Store → Store
  fail_position r none s = s
  fail_position r (some p) s =
      write_position (record p { status = close_failed; active_close_request_id = none }) s

  unfoldable pub fail_request : ℕ → CloseRequest → Store → Store
  unfolding fail_position
  fail_request now r s =
      let s' =
        write_request (record r { status = RequestStatus.failed; completed_at = some now }) s in
      fail_position r (lookup r.position_id s'.positions) s'

  unfoldable pub after_submission :
      ℕ → CloseRequest → Submission → Store → Store × Option WorkerError
  unfolding fail_request
  after_submission now r submit_raised s = (s, some submission_failed)
  after_submission now r refused s = (fail_request now r s, none)
  after_submission now r taken s = (
    write_request (record r { status = RequestStatus.submitted; submitted_at = some now }) s,
    none,
  )

  module _ (quote : Option Quote) (submit : ℤ → Submission) (now : ℕ) where
    unfoldable pub submit_at : CloseRequest → Option ℤ → Store → Store × Option WorkerError
    unfolding after_submission
    submit_at r none s = (s, some bad_quote)
    submit_at r (some price) s = after_submission now r (submit price) s

    unfoldable pub submit_quoted :
        OutboxEvent → CloseRequest → Option Quote → Store → Store × Option WorkerError
    unfolding submit_at limit_price
    submit_quoted e r none s = (s, some quote_timeout)
    submit_quoted e r (some q) s =
        if leb_ℤ q.bid (pos 0) || leb_ℤ q.ask (pos 0)
        then (s, some invalid_quote)
        else submit_at r (limit_price e.side q) s

    -- A request that is not pending any more is skipped.
    unfoldable pub submit_pending :
        OutboxEvent → RequestStatus → CloseRequest → Store → Store × Option WorkerError
    unfolding submit_quoted
    submit_pending e RequestStatus.pending r s = submit_quoted e r quote s
    submit_pending e _ r s = (s, none)

    unfoldable pub submit_request :
        OutboxEvent → Option CloseRequest → Store → Store × Option WorkerError
    unfolding submit_pending
    submit_request e none s = (s, none)
    submit_request e (some r) s = submit_pending e r.status r s

    unfoldable pub handle_submit_close_order : OutboxEvent → Store → Store × Option WorkerError
    unfolding submit_request
    handle_submit_close_order e s = submit_request e (lookup e.close_request_id s.requests) s

    -- `_handle_failure`
    unfoldable pub handle_failure : Option CloseRequest → Store → Store
    unfolding fail_request
    handle_failure none s = s
    handle_failure (some r) s = fail_request now r s

    -- The event after the call, and the exception that is raised again. The retries that were made are counted
    -- on the event.
    unfoldable pub finish_event : OutboxEvent → Option WorkerError → Store → Store
    unfolding handle_failure
    finish_event e none s = write_event (record e { status = done; processed_at = some now }) s
    finish_event e (some error) s =
        let count = e.retry_count + 1 in
        let failed =
          write_event (record e { status = given_up; retry_count = count })
            (handle_failure (lookup e.close_request_id s.requests) s) in
        let again = write_event (record e { status = waiting; retry_count = count }) s in
        if leb max_retries count then failed else again

    unfoldable pub process_event : OutboxEvent → Store → Store × Option WorkerError
    unfolding handle_submit_close_order finish_event
    process_event e s =
        let (s', error) = handle_submit_close_order e s in (finish_event e error s', error)
