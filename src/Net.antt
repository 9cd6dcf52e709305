-- ===== src/Net.antt =====
-- What pkg/iputils and internal/model use of Go's net and strings: addresses as bytes, masks, the
-- parsers and the printers.
pub mod Bytes
pub mod ParseFour
pub mod ParseSix
pub mod Parse
pub mod Print
pub mod Lengths
pub mod Networks
