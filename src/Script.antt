-- ===== src/Script.antt =====
-- The runtime of scripts (script-executor/src/runtime.rs, script-executor/src/https.rs): the
-- selectors of an ABI, the reading of a script's URL and output from its memory, the request for its
-- data, and a whole run.
pub mod Types
pub mod Memory
pub mod Registry
pub mod Output
pub mod Url
pub mod Scalars
pub mod Strings
pub mod Https
pub mod Runner
