-- ===== src/Time.antt =====
-- simulator/src/order_simulator/time_utils.py: the expressions, the time spans, the ISO texts, and
-- the functions that put them together.
pub mod Digits
pub mod Expression
pub mod Clock
pub mod Calendar
pub mod Resolve
