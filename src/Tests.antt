-- ===== src/Tests.antt =====
-- Runs of the model on concrete inputs, and the witnesses of the theorems.
mod Bodies
mod Caching
mod Clients
mod Network
mod Parsing
mod Program
mod Repeats
mod RoundTrips
mod Servers
