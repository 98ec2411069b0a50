-- ===== src/Runner.antt =====
-- simulator/src/order_simulator/runner.py.
pub mod Names
pub mod Assign
pub mod Event
pub mod Trace
pub mod Order
pub mod Run
pub mod Pool
pub mod Simulate
