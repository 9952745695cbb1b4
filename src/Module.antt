-- ===== src/Module.antt =====
-- include/mifsa/module: the interfaces, the platforms, and the programs that serve and use them.
pub mod Platform
pub mod Client
pub mod Connection
