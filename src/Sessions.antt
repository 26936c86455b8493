-- ===== src/Sessions.antt =====
-- sessions/: the store, the manager and the names of models. The redaction of texts is not modelled.
pub mod ModelRef
pub mod Store
pub mod Manager
