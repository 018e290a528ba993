-- ===== src/Net.antt =====
-- IPv4 prefixes, as internal/netblock and internal/ipam use those of Go's net/netip. An address is
-- its 32-bit number. A prefix that is not valid, such as the zero Prefix, has more than 32 bits.
pub mod Prefix
pub mod Power
pub mod Overlap
pub mod Slots
pub mod Buddy
