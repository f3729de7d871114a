-- ===== src/Runs.antt =====
-- Runs of the model on concrete inputs.
mod Engine
mod Batches
mod Guests
mod Manifests
mod Todos
mod Shells
mod Sessions
mod Calls
mod Searches
mod Replies
mod Hits
mod Scripts
