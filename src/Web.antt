-- ===== src/Web.antt =====
-- What stands around the handlers: the guards of src/shared/guards, the filter and the interceptor of
-- src/shared/filters and src/shared/interceptors, and the query values of
-- src/shared/dto/transform.util.ts.
pub mod Guards
pub mod Admitted
pub mod Envelopes
pub mod Queries
pub mod Repeated
mod Tests
