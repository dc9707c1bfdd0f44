-- ===== src/Anomaly.antt =====
-- The anomaly detector, services/anomaly: Go's float64, the detector, and what it alerts on.
pub mod Float64
pub mod Size
pub mod Rounding
pub mod Monotone
pub mod Above
pub mod Smoothing
pub mod Steady
pub mod Historic
pub mod Detector
pub mod Seconds
pub mod Alerts
pub mod Publisher
pub mod Endpoint
