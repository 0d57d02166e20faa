-- ===== src/Backtest.antt =====
-- The simulation of a strategy on past bars: backend/src/backtest. An amount of money is a whole number
-- of a grain that divides every amount, and the quotient of two decimals is the argument `divide`.
pub mod Portfolio
pub mod Engine
mod Tests
