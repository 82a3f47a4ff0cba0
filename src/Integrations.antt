-- ===== src/Integrations.antt =====
-- The clients of the two HTTP services: src/integrations/.
pub mod Calls
pub mod ContentRegistry
pub mod SseEvents
pub mod ContentValidation
pub mod ContentAvailability
pub mod ProfileApi
pub mod Tables
