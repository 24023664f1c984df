-- ===== src/Fuse.antt =====
-- pgfuse.c: the FUSE hooks.
pub mod Context
pub mod Attr
pub mod Create
pub mod Remove
pub mod FileIo
pub mod Rename
pub mod Statfs
pub mod Nothing
pub mod Mount
pub mod FileSpec
pub mod PathNames
pub mod Places
pub mod Created
pub mod Unlinked
pub mod Renamed
pub mod Errors
pub mod Oper
pub mod Bodies
pub mod Atomic
pub mod Leak
pub mod Committed
pub mod Clean
pub mod Refused
pub mod ReadOnly
