-- ===== src/Arith.antt =====
-- The evaluator of `$((…))`, src/shell/arith.rs. A text is the list of its characters' code points, and an
-- `i64` its two's complement bit pattern, a number below 2^64.
pub mod Int64
pub mod Tokens
pub mod Evaluate
pub mod Lexing
pub mod Total
pub mod Expression
mod Tests
