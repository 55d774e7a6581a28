-- ===== src/KeyedMutex.antt =====
-- keyedMutex of pkg/webserver/functions.go, which is postRevisionKeyedMutex of
-- pkg/database/functions.go over again: a registry of locks with reference counts. `System` runs any
-- number of goroutines over it, `Invariant` has what every step keeps, `Safety` the promises.
mod Family
pub mod System
pub mod Invariant
pub mod Moves
pub mod Safety
mod Tests
