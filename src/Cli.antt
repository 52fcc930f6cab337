-- ===== src/Cli.antt =====
-- cli/internal: the parts of the command-line client that log in and stay logged in.
pub mod Callback
pub mod Credentials
pub mod ApiClient
pub mod Browser
pub mod Login
