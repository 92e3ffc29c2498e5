-- ===== src/Tests.antt =====
-- The theorems at concrete regions, handles and caches.
pub mod Allocators
pub mod Caches
pub mod Concurrents
pub mod Directories
pub mod Futures
pub mod Guests
