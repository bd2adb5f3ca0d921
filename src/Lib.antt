-- ===== src/Lib.antt =====
-- The logic of snapper, which takes snapshots of a filesystem, compares them and undoes changes.
--
-- The library (snapper/) keeps the snapshots of a configuration, on the filesystem and as directories
-- with an info.xml each. A comparison of two snapshots makes a list of entries, one for each file
-- that differs, with a status of flags; it is saved as a file list beside the later snapshot, and the
-- steps of an undo are computed from it. The daemon offers the library on the bus (dbus/ escapes the
-- strings), and the command line client (client/) lists snapshots through it and has the cleanup
-- algorithms, which choose the snapshots that the daemon is asked to delete.
--
--   Base       names that all modules share: tests, lists, texts as lists of bytes, integers
--   Exec       code that changes an object and may throw: the state comes back beside an exception
--   Dbus       Hoho::escape and Hihi::unescape (dbus/DBusMessage.cc)
--   Files      Status: statusToString, stringToStatus, invertStatus; Defs: File and Files, sorting,
--              searching, undo steps (snapper/File.h, snapper/File.cc); Listing: the text of file
--              lists (snapper/Comparison.cc, snapper/AsciiFile.cc)
--   Undo       Defs: File::doUndo and what it calls; Calls: the system calls, over an unknown state;
--              Posix: what is documented of them; Memory: a file system that meets it; System: the
--              statuses against the system, dirname and basename
--              (snapper/File.cc, snapper/AppUtil.cc)
--   Comparison two snapshots on their disk: the constructor, initialize, create, load and save
--              (snapper/Comparison.cc)
--   Sysconfig  the lines of a file with values of keys (snapper/AsciiFile.cc)
--   Helpers    Quote: SystemCmd::quote (snapper/SystemCmd.cc); Subpath: is_subpath and detectFstype
--              (snapper/Snapper.cc)
--   Snapshots  Types: Snapshot; Disk: what is on disk; Entry: the methods of Snapshot; Table: the list
--              and its searches; Ops: nextNumber, the create functions and deleteSnapshot;
--              Reading: Snapshots::read (snapper/Snapshot.h, snapper/Snapshot.cc)
--   Compare    Tree: a directory tree; Content: cmpFiles; Dirs: listSubdirs and cmpDirs
--              (snapper/Compare.cc)
--   Btrfs      TreeNode: tree_node, created and deleted; Stream: the commands of the send stream, with
--              process_rename and merge, and result (snapper/Btrfs.cc)
--   Server     State: the daemon, its configurations and clients, and the checks of Client; Mounts:
--              add_mount, remove_mount; Handlers: the methods on the snapshots of a configuration;
--              Comparisons: create_comparison, find_comparison, delete_comparison; Loop: dispatch, the
--              worker of the background comparisons, and clients that come and go; Reach: all of these
--              as steps in any order; Uses, Counted, InUse, Made: the use counts (server/Client.cc,
--              server/Client.h, server/MetaSnapper.cc, server/Background.cc, server/snapperd.cc)
--   Client     Userdata: read_userdata and show_userdata (client/snapper.cc)
--   Cleanup    Types: XSnapshot and findPre, findPost (client/types.cc); Filter: filter1, filter2;
--              Algorithms: the three algorithms (client/cleanup.cc)
--
-- State. A Disk holds the filesystem's snapshots, the mounted ones, the directories, their info.xml
-- and file lists, and which of them have a temporary file that was left over. Each call of Filesystem
-- and of a directory is modelled by what it does to the Disk, and Faults says which of them fail, so
-- that a theorem for all Faults covers each failure. The failures of unlink, of the writing of a file
-- list and of its rename, which the code does not look at, are among them: a method that returns may
-- have left files, lists and directories behind, and a directory with files in it stays. An Entry
-- is a snapshot and the Disk; Snapshots is the list of snapshots and the Disk. An iterator is the
-- snapshot that it points to, and none where it is end(). A Daemon is the configurations with their
-- Snapshots, the clients with their locks, mounts and comparisons, the comparisons that are being
-- made, the background tasks and the signals sent. Each method runs under big_mutex and is one
-- function, but for create_comparison, which gives it back while it compares, and so is two:
-- begin_comparison and end_comparison. A Comparison is known by its configuration and its two numbers,
-- where the code compares pointers to the Snapper and iterators; a Snapper is not unloaded, nor a
-- snapshot deleted, while its configuration is in use.
--
-- Trees. The directory tree that is compared is what stat, readlink, open and the names of each
-- directory give; where the result of a stat is not tested in the walk, it succeeds. The names are
-- sorted at the start: cmpDirsWorker sorts them, and the order in which listSubdirs gets them from a
-- directory is not defined. In the tree of changed files a name is the list of its parts between the
-- slashes, and a name is not renamed to one that is below it.
--
-- Texts. The C functions end a text at its first null byte: getline, the format %s, regexec and the
-- texts of an info.xml do so in the model too. The buffer of 1024 bytes for the target of a link cuts
-- a longer one; the target of a link that is compared is what the buffer holds.
--
-- Integers. `unsigned int` is a number below 2 ^ 32 with its wrap-around written out. A time is an
-- integer; the use count of a configuration, an int, is exact; the differences of times are exact, as they are while they fit the 64 bits of time_t. A text
-- is a list of bytes.
--
-- Fuel. The loop of nextNumber has fuel for one round more than there are snapshots and directories,
-- each of which it passes over at most once. The creation of the directories above a path has its length
-- as fuel, as each of them has a shorter path. The loop of copyfile has its rounds as an argument of
-- doUndo; when they do not suffice the model returns false, and more rounds than bytes suffice.
--
-- Parameters. The system calls of an undo are a record of functions on an unknown state, with what is
-- documented of them: what lstat tells, what a call that succeeds does to its path, and that it shows
-- in no path apart from it; paths are apart when the way to neither leads over the other. An undo of a file calls on its path,
-- its counterpart and, to make and test directories, the paths above; a real system is taken with these
-- calls alone, the others failing, so that no directory on the way is replaced by a link. What mkdir
-- makes is empty, so it shows in no other entry at all, be it below the new directory. A call may fail
-- at any time; that a clone that fails has changed nothing is an assumption. regexec is an argument of
-- SysconfigFile, with what the expression of a key of letters, digits and underscores means. How the
-- streams write and read numbers, strftime and strptime, and what libxml2 reads of a document that it
-- wrote, are the Conversions, of which nothing is assumed. Filesystem::cmpDirs is an argument of Comparison. localtime_r, the reading of
-- numbers by streams, fnmatch and the comparison of two snapshots by the daemon are arguments of what
-- uses them. What the daemon answers is an argument of the cleanup algorithms, and the deletions that
-- they ask it for are their result.
--
-- Not modelled: the marshalling by libdbus, the filesystems (ioctls and external programs), the
-- timeouts of the main loop, the creation, deletion and loading of a configuration, tree_node::check,
-- the values of a configuration that are lists, and of the command line all but the userdata. The
-- worker of the background comparisons is modelled for comparisons that throw no exception. Nor is
-- the loss of the end of an info.xml when the last buffer cannot be written. Of the
-- entries that a comparison has found before it throws nothing is kept.
pub mod Base
pub mod Dbus
pub mod Exec
pub mod Files
pub mod Snapshots
pub mod Cleanup
pub mod Compare
pub mod Client
pub mod Btrfs
pub mod Undo
pub mod Sysconfig
pub mod Helpers
pub mod Comparison
pub mod Server
