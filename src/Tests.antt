-- ===== src/Tests.antt =====
-- The theorems at concrete inputs, and concrete functions for what the sources call.
mod Blocks
mod Loops
mod Strings
mod Tokens
mod Lists
mod Jumps
mod Arguments
mod Wildcards
mod Results
mod Flags
