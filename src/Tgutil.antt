-- ===== src/Tgutil.antt =====
-- internal/tgutil/util.go: the helpers on which the other packages rest.
pub mod Range
pub mod Base32
pub mod Media
pub mod Disposition
pub mod Hex
