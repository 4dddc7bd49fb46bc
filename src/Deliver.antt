-- ===== src/Deliver.antt =====
-- internal/deliver: what each channel sends.
pub mod Message
pub mod Sms
pub mod Escape
pub mod Html
pub mod Email
pub mod Telegram
pub mod Redact
pub mod Senders
pub mod Notifiers
pub mod Examples
