-- ===== src/Rules.antt =====
-- tools/sidecar_translator.py: how a rule statement is taken apart.
pub mod Text
pub mod Quotes
pub mod Actions
pub mod Chains
pub mod Collections
pub mod Variables
pub mod Contract
pub mod Statement
pub mod Controls
pub mod Transforms
pub mod Scopes
mod Tests
