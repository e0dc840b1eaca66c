-- ===== src/Application/Services/Keeping.antt =====
-- Every operation of the service keeps the invariant of the store, raises expected errors only, and
-- changes nothing when it raises.
pub mod Creating
pub mod Mutating
pub mod Linking
pub mod Reading
pub mod Listing
