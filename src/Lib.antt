-- ===== src/Lib.antt =====
-- The bookkeeping of containers/storage: which records a store lists, and the tables, ids and names
-- by which they are found.
--
-- A container store (containers.go) keeps the records of its containers in one slice and finds them by
-- id, by name, by layer, or by a prefix of the id. The tables share the records through pointers, the
-- methods change records in place, and each change is followed by Save, which writes the slice as JSON
-- while the lock file is held. Prefixes are looked up in an index of pkg/truncindex; new ids come from
-- pkg/stringid; names lose their repetitions and keys of big data become file names in store.go.
--
-- An image store (images.go) and a layer store (layers.go) are built alike. Images are found by digest
-- too; layers by the digests of their contents and by the path where they are mounted, which a second
-- file and a second lock file keep for the running system. A graph driver holds what is in a layer. Lock
-- files (pkg/lockfile) order the processes that share a directory and tell them when to load it again.
--
-- The files and what they model:
--   Prelude            texts as lists of code points, native lists, Go maps, signed integers and the
--                      `int` of 64 bits, a heap of records behind pointers, and actions (state to result
--                      and state), whose results are a value, an error, a panic or the lack of fuel
--   Env                what the store uses of the operating system, the lock file and other packages,
--                      as a record of functions on a world that the model does not look into
--   TruncIndex         pkg/truncindex/truncindex.go; Patricia is the interface of the third-party trie
--                      and an instance on a list, Interface what the container store uses
--   StringId           pkg/stringid/stringid.go, with the source of random bytes as a parameter
--   Names, Slices      dedupeNames, stringSliceWithoutValue, makeBigDataBaseName of store.go, and the
--                      idiom that takes an element out of a slice
--   IdTools            pkg/idtools/idtools.go and parser.go: id maps, their translation and their texts
--   Locker             pkg/locker/locker.go: locks by name, with a count of waiters; System holds the
--                      steps of any number of callers
--   Containers         containers.go: the records, Save, lookup and removeName; Create, Delete (with
--                      Wipe), Changes (SetNames, SetMetadata, flags), BigData and Load (with
--                      ReloadIfChanged) hold the methods, the other modules their proofs
--   Images             images.go, in the same division; Digests holds recomputeDigests and the table of
--                      digests, Filing, Filed and Recompute the proofs
--   Directory          the slice of records and its tables by id, name and prefix, which layers.go and
--                      images.go treat alike; Agrees says when they agree, the others that calls keep it
--   Layers             layers.go: Mounts (mount information, Save, Unmount), Mount, Changes, Digests,
--                      Delete, Load, Diff (applyDiffWithOptions), Request, Put, Additional and Open (the
--                      constructors); Filed, Coherent, Finding and Removal hold the proofs.
--                      A driver, the locks and the labels are parameters
--   Lockfile           pkg/lockfile/lockfile_unix.go; Processes holds the steps of goroutines in
--                      processes that share the kernel's lock
--   IdSet              idset.go over the third-party interval sets as a parameter; Exact holds its loops
--                      without bounds on integers, and when they are those of the code
--   UserNs             userns.go: the size and the mappings of automatic user namespaces
--   RefCounter         drivers/counter.go
--   StringUtils        InSlice and RemoveFromSlice of pkg/stringutils/stringutils.go
--   Tests              the methods on small concrete stores
--
-- A method of the container store is an action on ContainerStore: it returns a result and the changed
-- store on every path. Pointers are numbers into the store's heap, so that a record changed through one
-- table is changed for all. A map is a list of entries, where `put` replaces the entry of a key;
-- the order in which `range` yields keys is an argument where it matters. A nil map is told from an empty
-- one where the code would panic on it (the flags of Create's options), and nowhere else.
--
-- The `int`s of ids and ranges (IdTools, IdSet, UserNs) wrap around at 64 bits; the theorems on them say
-- which sums are assumed to fit. What JSON decoding yields is not fixed: where a theorem goes over a
-- Load, it says of the files which that run reads what they are assumed to decode to.
--
-- Fuel: the loops that draw random ids have no bound in the code. generate_id takes a number of draws,
-- and StringId.Random says how many are enough for a given source. The loop of Create takes two
-- numbers, the draws of each id and the rounds; where they run out, the result is `diverges`, which is
-- no success and leaves the tables as they were. Put of a layer does the same, and the loop of
-- layers.go's Delete, which unmounts until the count is not positive, takes a number of rounds. The loop
-- of idset.go's zip is given as many rounds as there are intervals, and IdSet.Zip proves that they are
-- enough; Load's loop over incomplete layers is given the length of the slice. All other loops are by
-- recursion on a list.
--
-- Not modelled: the mutexes inside a process, the text of error messages and their wrapping, elements
-- `null` in a JSON file, overflow of the sizes of layers and of counts, and Create's change of the option
-- map of its caller, which is seen by no later call. The drivers and the archives are not modelled, nor are the streams of
-- applyDiffWithOptions, which the driver's apply_stream stands for, and Layers has no Diff, Changes and
-- ParentOwners. PutAdditionalLayer stands outside the calls that keep the tables in agreement, and the
-- calls on staging directories are not modelled.
pub mod Prelude
pub mod TruncIndex
pub mod StringId
pub mod Env
pub mod Slices
pub mod Names
pub mod IdTools
pub mod IdSet
pub mod UserNs
pub mod Locker
pub mod RefCounter
pub mod Lockfile
pub mod Containers
pub mod Directory
pub mod Layers
pub mod StringUtils
pub mod Images
mod Tests
