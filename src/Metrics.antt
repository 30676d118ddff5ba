-- ===== src/Metrics.antt =====
-- modules/metrics: the histogram, the counters and gauges, and the two registries.
pub mod Histogram
pub mod Registry
mod Tests
