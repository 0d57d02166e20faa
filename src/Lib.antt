-- ===== src/Lib.antt =====
-- Verification library of the trading backend (backend/src).
--
-- The program takes signals of strategies through risk control to orders, books the fills of the orders into a
-- portfolio, and watches its own health: breakers report failures on an event bus, a state service keeps one
-- system mode, a gate turns the mode into permissions, a recovery walks the system back to normal, and a
-- buffer holds writes while the database is away.
--
-- Degradation, for backend/src/degradation:
--   Types      models.py and config.py: modes, stages, reason codes, events, thresholds
--   Breaker    breakers.py: CircuitBreaker.record_failure, record_success, effective_level
--   Gate       trading_gate.py: TradingGate.update_mode, check_permission, allows
--   Bus        event_bus.py: EventBus.publish, _dispatch_loop
--   Service    state_service.py: SystemStateService.handle_event, force_mode, update_recovery_stage
--   Recovery   recovery.py: RecoveryOrchestrator.start_recovery, advance_stage, abort_recovery
--   Feed       the events of a breaker handed to the state service
--   Buffer     db_buffer.py: DBBuffer.add, flush_to_db and the write-ahead log
-- Risk, for backend/src/risk: State is TradingStateManager of state.py, Manager is RiskManager of manager.py (evaluate
--   and its checks) on the types of Signals, Gate is GreeksGate of backend/src/greeks/greeks_gate.py.
-- Portfolio, for the booking of fills:
--   Repo       backend/src/db/repositories/portfolio_repo.py on lists of rows, backend/src/models/position.py
--   Fill       PortfolioManager.record_fill of backend/src/core/portfolio.py
--   Accounting the money of a fill; Positions the rows that a fill changes
-- Orders, for backend/src/orders: Types is models.py, Manager is OrderManager of manager.py, which books into
--   Portfolio. Fills is about repeated fills, Links about the dicts and the order objects, Effects about what
--   a fill does, Losses about fills that get lost.
-- Backtest, for backend/src/backtest: Portfolio is portfolio.py and fill_engine.py, Engine the event loop of
--   BacktestEngine.run in engine.py.
-- Reconciliation, for backend/src/reconciliation: Comparator is comparator.py with the types of models.py, and the
--   description of the reports by the last row of each side.
-- Closing, for the closing of a position through a request, an outbox and orders at the broker:
--   Types      backend/src/models/close_request.py, outbox.py, order.py, position.py, as tables by primary key
--   Request    close_position of backend/src/api/options.py
--   Outbox     OutboxWorker of backend/src/workers/outbox_worker.py, and in Retries the loop of
--              backend/src/workers/setup.py around it
--   Updates    OrderUpdateHandler of backend/src/workers/order_handler.py
--   Reconciler Reconciler of backend/src/workers/reconciler.py
--   Owned      the invariant that joins requests and positions; Steps the runs of all of these in any order
-- Governance, for backend/src/governance/constraints: Constraints is models.py, its Registry registry.py and its
--   Resolver resolver.py; Pool is filters.py and builder.py of backend/src/governance/pool.
-- Audit, for backend/src/audit: Chain is integrity.py and what repository.py writes and verifies.
-- Prelude holds what these share: tests, lists, integers, dicts, tables, results of calls that raise, texts.
--
-- How the code is read. An object is a record and a method returns the new record; a method that can raise returns
-- the state that the exception leaves beside the result. A lock makes a method atomic, and so does a stretch of
-- a coroutine without an await; in Orders a method is split where it awaits. A clock reading is an argument, in
-- microseconds; the two clocks that a method reads are read at one moment. Calls into code that is not known
-- here (handlers, callbacks, the fallback file, redis) are recorded in the order in which they
-- are made. Logging is left out. A text that is only compared is a number. An amount of money is an integral
-- number of ten-thousandths (in the other parts of a grain that divides every amount), decimals are
-- exact, and the quotient of two decimals is the parameter `divide`; a theorem that needs
-- it to be exact says so. The product of two floats, as it is rounded, is the parameter
-- `times` in Governance. Python's integers are the integers of Prelude.Int, which do not overflow.
--
-- Bounds and fuel: two loops of the source have no bound. The dispatch loop of the bus runs for a given number of
-- rounds here; as many rounds as there are queued events are enough to empty the queue. The loop of the outbox
-- worker runs for a given list of turns that meet an event; three are enough to complete it or to give it up.
-- Every other loop of the source is over a list.
--
-- Not modelled: the wall-clock and thread behaviour of the event loop, the serialisation of the records, the
-- database and redis themselves, a transaction that is interleaved with another inside one method of Closing, and
-- the components of the program that are not named above (the reconciliation service, hypotheses and factors of the
-- governance, the service and redaction of the audit, the computation of the Greeks, alerts, brokers,
-- market data, strategies and the rest of the API).
pub mod Prelude
pub mod Degradation
pub mod Risk
pub mod Portfolio
pub mod Orders
pub mod Backtest
pub mod Reconciliation
pub mod Closing
pub mod Governance
pub mod Audit
