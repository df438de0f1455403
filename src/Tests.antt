-- ===== src/Tests.antt =====
-- Small runs of the modelled functions, and an instance of each theorem that has conditions.
mod Setting
mod Cells
mod Blobs
mod Chain
mod Schedule
mod Network
mod Congestion
mod Layer
mod Storage
mod Market
