-- ===== src/Acquire/Kept.antt =====
-- What acquisition keeps in every interleaving, operation by operation.
pub mod Completion
pub mod CompletionNzb
pub mod Scanned
pub mod ScannedNzb
pub mod Resolves
pub mod Searches
pub mod Races
pub mod RacesNzb
pub mod Tiers
pub mod Trees
pub mod Places
pub mod Starts
pub mod Seasons
pub mod Scans
