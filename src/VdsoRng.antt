-- ===== src/VdsoRng.antt =====
-- crates/vdso-rng: random states rented from a pool of mapped pages. `Config` sizes the blocks, `Os`
-- wraps the mapping calls, `Pool` is the free list with its growth, `LocalState` a rented state, `Vdso` the
-- search for the function, and `Create` makes a pool from what it finds.
pub mod Os
pub mod Config
pub mod Processors
pub mod Pool
pub mod LocalState
pub mod Mock
pub mod Vdso
pub mod Create
mod Tests
