-- ===== src/Rpc.antt =====
-- Package reqresp (p2p/rpc/reqresp/*.go): requests and chunked responses over streams.
pub mod Stream
pub mod BufLimit
pub mod Compression
pub mod Request
pub mod Encode
pub mod Method
pub mod Responder
pub mod Wire
pub mod Response
pub mod RoundTrip
pub mod Varint
pub mod Toy
pub mod Tests
