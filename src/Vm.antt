-- ===== src/Vm.antt =====
-- vm/src: the memory manager of the virtual machine, and the layout of values for a GPU.
pub mod Memory
pub mod Fuel
pub mod GpuLayout
mod Examples
