-- ===== src/Routing.antt =====
-- routing/: the rules, the router and the origins of turns. The JSON form of messages is not modelled.
pub mod Rules
pub mod Router
pub mod TurnSource
