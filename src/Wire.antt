-- ===== src/Wire.antt =====
-- Integers on the wire (Monitor/Monitor/Com.h), the requests that the client sends
-- (Monitor/Monitor/AvsProxyStructs.h) and the parameters that it reads (Monitor/Monitor/Scene).
pub mod Order
pub mod Serialize
pub mod Requests
pub mod Cursor
pub mod Parameters
pub mod RoomsInfo
pub mod RoundTrip
pub mod Layout
pub mod Messages
mod Examples
