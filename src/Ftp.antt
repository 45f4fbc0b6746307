-- ===== src/Ftp.antt =====
-- The FTP client of source/clients/ftpclient.cpp, over a parameter for the sockets.
pub mod Reader
pub mod Address
pub mod Control
pub mod Channel
pub mod Files
pub mod Remote
pub mod Raw
pub mod Samples
