-- ===== src/Tests.antt =====
-- The theorems at concrete inputs, and runs of the definitions.
mod Requests
mod Documents
mod Dictionary
mod Connecting
mod Wiring
mod Clocks
mod Live
mod Views
mod Filters
mod Sorting
mod Sharing
mod InFlight
