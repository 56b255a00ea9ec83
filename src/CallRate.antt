-- ===== src/CallRate.antt =====
-- airbyte_cdk/sources/streams/call_rate.py: policies that limit the rate of calls, and the budget
-- that asks the policy of a request.
pub mod FixedWindow
pub mod Budget
pub mod Matching
pub mod Window
pub mod Acquire
mod Tests
