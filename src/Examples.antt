-- ===== src/Examples.antt =====
-- Runs of the models on concrete inputs, and the theorems at inputs that meet their hypotheses.
mod Blobs
mod Wire
mod Receive
mod FilePaths
mod Payloads
mod Uploads
mod Pieces
mod Disk
mod Requests
mod Turns
