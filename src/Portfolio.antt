-- ===== src/Portfolio.antt =====
-- Fills and positions: backend/src/core/portfolio.py over backend/src/db/repositories/portfolio_repo.py.
-- An amount of money is a whole number of ten-thousandths, the grain of the column `Numeric(18, 4)`.
-- The quotient of two `Decimal`s as that column keeps it is the argument `divide`. Identifiers are texts
-- that are only compared, so they are numbers.
pub mod Repo
pub mod Fill
pub mod Accounting
pub mod Positions
mod Tests
