-- ===== src/Tests.antt =====
-- A platform on which the laws hold, and runs of the code on concrete inputs.
mod Values
mod Decode
mod Sorting
mod Place
mod Redacted
mod Imports
mod Anchoring
mod Logs
mod LogPins
mod Records
mod Runs
mod Payloads
mod Access
mod Tenants
mod Matching
mod Rules
