-- ===== src/Grab.antt =====
-- The checks on a page that is taken from another site, in pkg/webserver/grab.go: the addresses that it may
-- come from, and the attributes that it may keep.
pub mod Addresses
pub mod Octets
pub mod Attributes
mod Tests
