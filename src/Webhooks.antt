-- ===== src/Webhooks.antt =====
-- src/code-indexer/webhooks.ts and webhookSignature.ts: `Payload` reads the parts of a delivery,
-- `Mapping` turns it into jobs, `Handler` answers the request.
pub mod Payload
pub mod Mapping
pub mod Fallback
pub mod Handler
mod Tests
