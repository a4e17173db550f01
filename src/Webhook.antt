-- ===== src/Webhook.antt =====
-- The reception of deliveries: their fields and redaction (app/services/webhook_normalizer.py), their
-- signature (app/security/webhook_signature.py) and the routes (app/routers/webhooks.py).
pub mod Payload
pub mod Redaction
pub mod Normalizer
pub mod Bounds
pub mod Signature
pub mod Receive
pub mod Signed
pub mod Reception
mod Tests
