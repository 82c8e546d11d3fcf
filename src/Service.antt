-- ===== src/Service.antt =====
-- pkg/fab/events/service: the event dispatcher, and the service in front of it.
pub mod Registrations
pub mod Dispatcher
pub mod Publish
pub mod Filter
pub mod FilterBlock
pub mod Unregister
pub mod Handlers
pub mod Start
pub mod Order
pub mod Live
pub mod Transfer
pub mod Keys
pub mod Delivery
pub mod Tests
