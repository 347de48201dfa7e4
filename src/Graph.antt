-- ===== src/Graph.antt =====
-- Package graph (fs/graph): the resources of the Graph API.
pub mod Item
pub mod Remote
pub mod QuickXor
pub mod Http
pub mod Auth
pub mod Request
pub mod Calls
pub mod Service
