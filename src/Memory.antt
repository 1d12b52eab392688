-- ===== src/Memory.antt =====
-- kernel/memory.cpp and memory.h: the physical page allocator and the kernel heap.
pub mod Bitmap
pub mod Pmm
pub mod Heap
mod Tests
