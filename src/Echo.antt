-- ===== src/Echo.antt =====
-- echo-async: the parts of the server that are not calls of libraries.
pub mod Timeout
pub mod Connection
