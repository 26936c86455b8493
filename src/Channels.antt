-- ===== src/Channels.antt =====
-- channels/: the authorization of events, the registry, typing indicators and delivered sends. The adapters of the messengers are not modelled.
pub mod AuthPolicy
pub mod TypingGuard
pub mod DeliveredChannel
pub mod Message
pub mod Registry
