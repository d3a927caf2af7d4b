-- ===== src/Tests.antt =====
-- The operations and the theorems at concrete inputs.
mod Samples
mod Objects
mod Stored
mod Texts
mod Keys
mod Accounts
mod Routes
mod Conversions
mod Files
mod Network
mod Journeys
mod Starting
mod Tables
mod KeyTable
mod Prompts
