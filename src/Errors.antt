-- ===== src/Errors.antt =====
-- modules/core/include/chainforge/core/{expected,error,error_utils}.hpp: results, errors with their
-- causes, and the utilities that retry, fall back, break the circuit and watch the rate of errors.
pub mod Expected
pub mod Codes
pub mod Info
pub mod Recovery
pub mod Breaker
pub mod Monitoring
mod Tests
