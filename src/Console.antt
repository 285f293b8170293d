-- ===== src/Console.antt =====
-- The console of src/cmd.c and src/cvar.c: the text of commands, its tokens, and the variables.
pub mod Tokens
pub mod Buffer
pub mod Table
pub mod Variables
pub mod Config
mod Tests
