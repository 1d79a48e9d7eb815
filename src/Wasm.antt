-- ===== src/Wasm.antt =====
-- wasm/src/lib.rs: the JavaScript binding of `encrypt_public_decrypt`. The host's values and functions
-- are a parameter.
pub mod Host
pub mod Number
pub mod Request
pub mod Response
pub mod Call
pub mod Represents
pub mod Shows
pub mod Reading
pub mod Answers
