-- ===== src/Examples.antt =====
-- Concrete libraries, and the theorems at concrete data.
pub mod Json
pub mod Models
pub mod Crypto
pub mod Telescopic
pub mod Jose
pub mod Handshake
pub mod Forward
pub mod Servers
pub mod Forwarding
pub mod Application
pub mod EndToEnd
pub mod Nrf
pub mod Profile
pub mod Settings
pub mod Lifecycle
pub mod Exchange
pub mod Stop
pub mod Shutdown
pub mod Query
pub mod Routes
pub mod Startup
pub mod Direct
