-- ===== src/Parser/Bounds.antt =====
-- The bounds that src/shell/parser.rs keeps: substitution regions lie in the line, and the rule for
-- its loops.
pub mod Lists
pub mod Regions
pub mod Rule
pub mod Double
