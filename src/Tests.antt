-- ===== src/Tests.antt =====
-- Concrete runs of the code, and the instances of the theorems at them.
pub mod Data
pub mod Codecs
pub mod Consumer
pub mod Producer
pub mod Peers
pub mod Serving
pub mod Frames
pub mod Mirror
pub mod History
pub mod Sources
pub mod Cards
