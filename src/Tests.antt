-- ===== src/Tests.antt =====
-- Concrete inputs for the theorems of this library, and the theorems at them.
mod Retention
mod Content
mod Api
mod LogRedaction
mod Node
mod Http
mod Waker
mod Reclaim
mod Boot
mod Turns
mod Converges
mod Uploads
mod Attempts
mod Abstract
mod Deaf
mod Registry
mod Pushes
mod Sweep
