-- ===== src/Modbus.antt =====
-- aggregator_demo/modbus_tcp.py: the Modbus/TCP frames, the stream reader and the client.
pub mod Registers
pub mod Bytes
pub mod Frames
pub mod Commands
pub mod RoundTrip
pub mod CommandTrip
pub mod Stream
pub mod Client
mod Tests
