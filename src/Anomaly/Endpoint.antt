-- ===== src/Anomaly/Endpoint.antt =====
-- services/anomaly/main.go: the handler of /record.
use nex_pulse.Base.{ℕ, Bool, if◌then◌else◌}
use nex_pulse.Anomaly.Detector.{Detector, record_event}

-- The status of the answer with the detector after it; `is_post` is the test of the method.
unfoldable pub record_endpoint : Bool → Detector → ℕ × Detector
unfolding record_event
record_endpoint is_post d = if is_post then (204, record_event d) else (405, d)
