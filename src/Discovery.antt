-- ===== src/Discovery.antt =====
-- lanfence/discovery.py: the parsing of captured datagrams, and what becomes of them.
pub mod Names
pub mod Txt
pub mod Process
pub mod Message
pub mod Ssdp
