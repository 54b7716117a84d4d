-- ===== src/Bindings.antt =====
-- src/bindings: the library for programs in other languages.
pub mod Python
pub mod Php
pub mod Node
