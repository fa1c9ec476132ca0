-- ===== src/Nvidia/Validity.antt =====
-- That the points of the GPUs are made, and the batch that they become.
pub mod Smi
pub mod Xid
pub mod Gpus
