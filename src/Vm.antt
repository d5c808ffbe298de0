-- ===== src/Vm.antt =====
-- kernel/source/system/memory/vmm.cpp and kernel/interfaces/system/memory/vmm.cppm: the address space
-- of a process, a set of page ranges over memory objects.
pub mod Mapping
pub mod Pages
pub mod Splice
pub mod Space
pub mod Valid
pub mod Loop
pub mod Pieces
pub mod Unmap
pub mod Recast
pub mod Protect
pub mod Map
pub mod Region
pub mod Faults
pub mod Tests
