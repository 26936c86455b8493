-- ===== src/Browser.antt =====
-- browser/: the pool of browsers. The client of the DevTools protocol and the actions are not modelled.
pub mod Pool
