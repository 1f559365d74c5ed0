-- ===== src/Tests.antt =====
-- An environment to run the server in, runs of the server, and the theorems at concrete inputs.
mod World
mod Folder
mod Wire
mod Witnesses
mod Serving
mod Post
mod Lines
mod Runs
mod Whole
mod Listings
mod Session
mod Refusal
