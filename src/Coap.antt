-- ===== src/Coap.antt =====
-- src/library/coap.hpp and src/library/coap.cpp: CoAP messages, and the client and server.
pub mod Header
pub mod OptionType
pub mod Options
pub mod UriPath
pub mod Message
pub mod Client
pub mod Server
mod Tests
