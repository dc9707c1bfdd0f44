-- ===== src/Dashboard.antt =====
-- infra/grafana/dashboards/generate_dashboard.py
pub mod Board
pub mod Helpers
pub mod Series
pub mod Geomap
pub mod Traffic
pub mod Analytics
pub mod Health
pub mod Vitals
pub mod Performance
pub mod Sections
pub mod Grid
pub mod Layout
pub mod Stacking
pub mod Numbers
pub mod Queries
pub mod Thresholds
