-- ===== src/VdsoRng/Vdso.antt =====
-- crates/vdso-rng/src/vdso.rs and auxv.rs: the search for the function in the image of the vDSO. What
-- the code reads behind a pointer is a parameter, and a loop that follows pointers has fuel.
pub mod Image
pub mod Symbols
pub mod Headers
pub mod Search
pub mod Versions
pub mod Lookup
pub mod Returns
pub mod Provides
pub mod Vector
mod Tests
