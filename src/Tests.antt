-- ===== src/Tests.antt =====
-- The theorems at concrete states of the kernel module (src/module).
mod State
mod Runs
mod Lists
mod Searches
mod Fences
mod Counters
mod Notifications
mod Threads
mod Systems
mod Libraries
mod Startups
mod Caches
mod Logs
mod Asks
mod Stops
