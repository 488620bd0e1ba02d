-- ===== src/Witness.antt =====
-- Concrete inputs at which the theorems of the development apply, with small tests.
pub mod Rules
pub mod Conn
pub mod Text
pub mod Server
pub mod Control
pub mod Configuration
