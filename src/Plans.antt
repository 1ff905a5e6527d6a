-- ===== src/Plans.antt =====
-- tools/sidecar_translator.py: what the translator reads off a parse tree to plan the lowering of a
-- rule.
pub mod CharSets
pub mod Languages
pub mod Masks
pub mod FirstBytes
pub mod Seeds
pub mod Greedy
pub mod Transformed
mod Tests
