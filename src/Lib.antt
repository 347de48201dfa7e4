-- ===== src/Lib.antt =====
-- A model of jonedrive, a filesystem in user space that mounts a OneDrive account, and the theorems on it.
--
-- The kernel calls the operations of fs/fs.go. They work on a tree of inodes in memory, which fs/cache.go
-- keeps by ID and by number and loads from the server or from disk, and on a cache of file contents
-- (fs/content_cache.go). What a user writes is queued for the upload manager (fs/upload_manager.go), whose
-- sessions (fs/upload_session.go) send it; what changes on the server is fetched and applied by the delta
-- loop (fs/delta.go). An upload and a delta may both exchange the local ID of an item for the server's.
--
-- The files:
--   Prelude     lists and tests over the native numbers, tables keyed by text, and runs of Go code, which
--               return a value and a state or panic; texts under Go's functions on strings.
--   Graph       Item: fs/graph/drive_item.go and the checksum and ETag tests of fs/graph/hashes.go.
--               Remote: the calls of the server, the clock, the random generator, Go's Unicode case
--               functions and the errors of opening and writing cache files, all of them parameters: the
--               answers to a call may depend
--               on how many calls were made before it. QuickXor: fs/graph/quickxorhash/quickxorhash.go.
--               Http: the HTTP client, the JSON decoder and what else package graph uses, a record of
--               functions. Auth: fs/graph/oauth2.go. Request: fs/graph/graph.go. Calls: the calls of
--               fs/graph/drive_item.go. Service fills the parameter of the filesystem with them.
--   Inode       fs/inode.go; Attr is the part of fuse.Attr that the program fills in.
--   Content     fs/content_cache.go. The disk is a list of files by number and names that stand for them,
--               so that a file that is open lives on when its name is removed, as on Unix.
--   Fs          the state of fs/cache.go. An *Inode is a number into a heap of inodes, so that the metadata
--               map, the open directories and a running operation share it. Ids: TranslateID, InsertNodeID,
--               GetID, GetNodeID. Tree: InsertID, InsertChild, DeleteID, MoveID. Lookup: GetChildrenID,
--               GetChild, GetPath, MovePath; its child Paths: GetChildrenPath, DeletePath, InsertPath. Disk:
--               SerializeAll.
--   Upload      Session and Transfer: fs/upload_session.go. Manager: fs/upload_manager.go, one function for
--               each case of the loop, on_uploaded for the end of an upload that runs beside it.
--   Delta       fs/delta.go; delta_round is one round of the endless loop of DeltaLoop.
--   Ops         fs/fs.go. Names: isNameRestricted. Dir: Mkdir, Rmdir, OpenDir, ReleaseDir, ReadDirPlus,
--               ReadDir, Lookup, Unlink. Create: Mknod, Create. File: Open, Read, Write, Fsync, Flush,
--               GetAttr.
--               Rename: SetAttr, remoteID, Rename. Stat: StatFs.
--   Start       NewFilesystem of fs/cache.go, from what the cache directory holds.
--   App         Config: cmd/common and the configuration. Command: the decisions of cmd/onedriver/main.go.
--               Volume: .xdg-volume-info. Home: ui/onedriver.go. Systemd: ui/systemd/systemd.go.
--               Launcher: cmd/onedriver-launcher/main.go and ui/widgets.go, as the callbacks of the window
--               (Window), of a row (Row) and of the settings (Settings), over the rows and switches and a
--               list of the calls that were made with their answers; Events: one signal after the other.
--   Examples    the theorems applied to small inputs.
-- The theorems on a module stand in its child modules: Laws, Methods, Registry, Reload, Moves, Total, Effects,
-- Frame, Moved, Chunks, Slots, Verified, Ends, Apply, Restart, Modes, Writes, Top; Valid and Refines on
-- View, which is the abstract view of the content cache; Fetch, and Served, from the HTTP server to a file;
-- Fetched, and Listed, from it to the children of a folder; Fresh, Pages, Ranges, Download, Renewal, Code,
-- Root, Offline, Bounds, Names, Position, Cells, Spread, Pieces, Removed, and Home/Paths; and of the launcher
-- Monad, Quiet, Wired, Total, Named, Renamed, Adding, Trace, Stopping and Moves.
--
-- Bounds. Numbers are natural numbers; the wrap-around of uint64 and uint32 counters is written out. The
-- registry theorems ask for room below 2 ^ 64, which no run of a machine uses up. The number of chunks is
-- computed through float64 in Go, which is exact below 2 ^ 53 bytes; the theorems on chunks ask for that.
-- Fuel stands in several places: the rounds of the carry in the hash, where offset + 11 is given and one round
-- is used; the retries of a chunk after a status of 500 or more, and the pages of a poll, both of which the
-- server may make endless. A chunk that runs out of retries leaves the upload running, without a result;
-- a poll that runs out of pages ends without success. In package graph the fuel of a request is how often a
-- sign-in may be answered with 401 when it asks for the name of the user, and that of a folder is its pages,
-- where the theorem takes more than there are; a run that uses them up ends as a panic does.
--
-- Not modelled: errors of the disk, but at the opening of a cache file, in the write of a user and at the file
-- of tokens; locks (an operation runs alone, and an upload reports at once to the loop); the blocking of
-- channels; timeouts and waits; logging; the bytes of JSON and of the boltdb file (a bucket is a table of
-- values, some of them malformed); the order in which Go walks a map, which is the order of the table here;
-- Unicode case folding, url.PathEscape, filepath.Join and mergo (parameters); the browser window and its C
-- code; the flags, the mount and the FUSE server; the handler of signals, which only unmounts and exits; the
-- widgets of the launcher, whose signals are taken one after the other.
pub mod Prelude
pub mod Graph
pub mod Inode
pub mod Content
pub mod Upload
pub mod Fs
pub mod Delta
pub mod Ops
pub mod Start
pub mod App
pub mod Examples
