-- ===== src/Router.antt =====
-- Package `router` (router/): the routes, their manager, the pump that reads the containers' logs,
-- and the registries through which its parts find one another.
pub mod Message
pub mod Route
pub mod Manager
pub mod Pump
pub mod Persist
pub mod Extensions
pub mod Http
