-- ===== src/Cost.antt =====
-- internal/costpredictor and internal/costintelligence, over an abstract float64.
pub mod Predictor
pub mod RealTime
pub mod Monitor
pub mod Actions
pub mod Modes
pub mod Cache
mod Tests
