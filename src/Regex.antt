-- ===== src/Regex.antt =====
-- tools/regex_dfa.py: the regular-expression compiler.
pub mod Ast
pub mod Masks
pub mod Meaning
pub mod Ordinary
pub mod Thompson
pub mod Closure
pub mod Moves
pub mod ByteClasses
pub mod Dfa
pub mod Bitset
mod Tests
