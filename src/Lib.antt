-- ===== src/Lib.antt =====
-- Verification library of the apollo controller.
--
-- The daemon (apollo/) runs containers with an id map each, checks what a client sends before it
-- acts on it, and does its work as background operations; shared/ holds what the daemon and the
-- command line have in common. The library models the parts that decide something, and leaves out
-- those that only call the kernel, external programs, the database or HTTP.
--
-- Idmap and its children: shared/idmapset_linux.go. An IdmapSet is the list of its entries, with
--   ids in int64 that wrap around (Prelude/Int). Idmap has the operations on one entry
--   (HostidsIntersect, Intersects, shift_into_ns, shift_from_ns), Idmap/Shift the loop of
--   doShiftIntoNs, Idmap/AddSafe the one of AddSafe, Idmap/Parse parse and Append, Idmap/Ranges
--   ValidRanges and Usable, Idmap/Host the choice of DefaultIdmapSet. sort.Sort is an insertion sort
--   by Less. Idmap/Block views an entry with ids below 2 ^ 32 as a partial function on ids, which
--   is what the theorems on maps speak of. A file of the host is its lines, or missing.
-- Operation and its children: apollo/operations.go. Operation has the record and what creates and
--   changes it, Operation/Threads the goroutines of Run, Cancel, Connect and done as threads that
--   take atomic steps: a run is a schedule, a list of thread numbers with what a hook returns.
--   Operation/Table has the table of operations and Render. The status codes are in StatusCode
--   (shared/api/status_code.go). Ids and times are arguments.
-- Size: ParseByteSizeString and ParseBitSizeString of shared/util.go.
-- Config: shared/container.go, the checkers of configuration keys, with IsTrue of shared/util.go.
-- Container and its children: apollo/container.go, with ValidHostname of shared/util.go and
--   mercuryValidConfig of apollo/container_mercury.go. A Go map is the list of its pairs in the
--   order in which it is visited. Container has the names and the root disk, Container/Limits the
--   checks of a configuration, Container/Raw the lines of raw.mercury, Container/DeviceKeys and
--   Container/Devices the checks of devices; Container/Names is about names.
--   The version of the container library, the file system and the table of storage pools
--   are parameters there.
-- Devices and its children: apollo/types/devices.go, the difference of two lists of devices
--   (Devices/Changes against the lists that the source builds, Devices/Update against a description
--   of its own) and the devices of a profile (Devices/Profile).
-- Allocation and its children: idmapSize, parseRawIdmap and findIdmap of
--   apollo/container_mercury.go, which give a container its id map. What is read of the other
--   containers is an argument.
-- ContainerLock and its children: mercuryContainerOperation with createOperation and getOperation
--   of apollo/container_mercury.go. An operation is its place in the list of all that
--   were made, and a run is a list of what threads do under the lock, in any order.
-- Expanded and its children: expandConfig and expandDevices of apollo/container_mercury.go, and the
--   keys that Update takes for changed.
-- Balance and its children: parseCpuset and the part of deviceTaskBalance of apollo/devices.go that
--   decides which container runs on which CPU.
-- Upgrade and its children: UpdatesApplyAll of apollo/db/update.go and patchesApplyAll of
--   apollo/patches.go. Updates, patches, the backup and the writes of the database are a record of
--   functions that may fail.
-- DaemonConfig and its children: apollo/daemon_config.go with ConfigValueSet of apollo/db/config.go;
--   validators and setters are functions, and a write of the database may fail.
-- StorageLock and its children: the map of ongoing operations of apollo/storage.go, as
--   StoragePoolUmount of apollo/storage_btrfs.go uses it, for any number of threads and any schedule.
-- Autostart and its children: the order of containers, containersRestart and containersShutdown of
--   apollo/containers.go, with State and IsRunning of apollo/container_mercury.go. Loading a container
--   and sorting are functions; what a shutdown has written is apart from what its goroutines write.
-- Lvm and its children: containerNameToLVName and lvmVersionIsAtLeast of
--   apollo/storage_lvm_utils.go.
-- DeviceLimits and its children: deviceParseCPU and deviceParseDiskLimit of apollo/devices.go.
-- Ceph and its children: apollo/storage_ceph_utils.go. Ceph/Path has parseParent and parseClone,
--   Ceph/Command the command lines of rbd and what is made of the answers, Ceph/Delete
--   cephContainerDelete and cephContainerSnapshotDelete, which call each other. rbd is a function of the
--   command and a state of any type, and the model keeps the list of all commands run; a result of -1
--   ends the step.
-- Networks and its children: networkValidateConfig of apollo/networks_config.go, with the checks of
--   apollo/networks_utils.go. What package net makes of an address is a record of functions.
-- Prelude and its children: names of the libraries, lists over native numbers, results, int64, and
--   the functions of packages strings and strconv that the code calls, on ASCII.
-- Tests: the theorems at concrete inputs.
--
-- Each loop is structural recursion on a list, but for the one of parseCpuset over a range of CPUs,
-- which has fuel: Balance/Range is about how much is enough; and the deletions of Ceph/Delete, whose
-- fuel bounds the depth of the calls and the rounds of unmapping. Whether these end depends on what rbd
-- answers, so that the theorems on what they run hold at every fuel, and Ceph/Delete/Unmapped is about
-- the fuel that the unmapping needs. A number has the width of the source:
-- ids and sizes are int64 with its wrap-around, what ParseUint reads has 32 bits.
--
-- Not modelled: the walk that changes the owners of files; the storage backends but for their lock,
-- for names and versions of LVM and for the deletion of Ceph volumes; the set-up of networks; the
-- tables of the database; the updates and patches themselves, migration, images, the REST handlers,
-- confinement profiles and the command line. They are calls of the kernel, of external programs, of
-- SQL or of HTTP.
pub mod Prelude
pub mod Idmap
pub mod Operation
pub mod StatusCode
pub mod Size
pub mod Config
pub mod Container
pub mod Devices
pub mod Allocation
pub mod ContainerLock
pub mod Balance
pub mod Upgrade
pub mod DaemonConfig
pub mod Expanded
pub mod StorageLock
pub mod Autostart
pub mod Lvm
pub mod DeviceLimits
pub mod Ceph
pub mod Networks
pub mod Tests
