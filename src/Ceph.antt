-- ===== src/Ceph.antt =====
-- RBD volumes of a Ceph cluster, apollo/storage_ceph_utils.go: the commands, how the names of volumes
-- are read, and the deletion of volumes and snapshots with all that depends on them.
pub mod Path
pub mod Command
pub mod Delete
