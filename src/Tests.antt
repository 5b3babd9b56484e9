-- ===== src/Tests.antt =====
-- Runs of the models at concrete inputs, and each theorem with hypotheses at an input where they
-- hold.
mod Wire
mod Encoding
mod Answers
mod Stores
mod Access
mod Recursion
mod Service
mod Flights
mod Files
