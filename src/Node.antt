-- ===== src/Node.antt =====
-- The parts of examples/nodejs: resty_ffi.cc, which JavaScript calls to poll, read and answer, and
-- loader.cc, which starts Node.js and calls the JavaScript of a runtime.
pub mod Answered
pub mod Bindings
pub mod Loader
pub mod Thread
pub mod Utf8
