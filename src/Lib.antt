-- ===== src/Lib.antt =====
-- Verification of mini-hadoop, a small HDFS and MapReduce in C++. It models the serialisation, the
-- remote calls, the file system from its client to the NameNode and the block files of the
-- DataNodes, and MapReduce jobs, in one process and handed out to workers.
--
-- How the parts interact. Every message and every stored value is written by an OutputBuffer and
-- read by an InputBuffer (src/io/buffer.h). The NameNode keeps one FsNamesystem
-- (src/ndfs/fs_namesystem.h), which owns an InodeTree (src/ndfs/inode_tree.h) and the maps from
-- blocks to DataNodes; clients and DataNodes call its methods, which hold one mutex; EnterSafeMode
-- and UpdateSafeMode take no lock, and are taken to run between the others. The JobTracker
-- (src/mapred/dist_job_tracker.h) hands out tasks to the TaskTrackers that poll it
-- (src/mapred/task_tracker.h).
--
-- Files.
--   Common: names of the libraries that all files share, with lists, strings, maps as association
--     lists, and machine integers. A string is the list of its bytes. A 32-bit or 64-bit integer
--     is an integer with the wrap-around written out (wrap32, wrap64).
--   Status: src/common/error.h.
--   Io/Buffer: src/io/buffer.h. A read is a function from the buffer to an Outcome: a value with
--     the buffer after it, or the exception that the C++ code throws. Cursor and RoundTrip hold
--     the rules for reads of written bytes, Fields whole messages, Bounds and Truncation what
--     reads do on any input and on a message that was cut.
--   Io/Writables: src/io/writable_types.h and src/io/md5.h, a file for each type; Writable is the
--     interface of src/io/writable.h, with its laws.
--   Io/SequenceFile: src/io/sequence_file.h. Records describes the bytes of a record, RoundTrip
--     reads back what was appended, Errors is about files with any bytes, Typed about keys and
--     values of the classes of Io/Writables.
--   Ndfs/InodeTree: src/ndfs/inode_tree.h. Path is about SplitPath; View takes the tree as a map
--     from paths to entries and says what each operation does to that map; WellFormed is the
--     invariant; Refinement states both by path, as the methods are called.
--   Ndfs/FsImage: src/ndfs/fsimage.h, the image of the name space. Operations and Steps say what
--     the lines of an image do to the tree, Paths, BlockIds and Lines are about the text of each;
--     RoundTrip is about whole images, Blanks about names that an image cannot hold, Storable and
--     SolidPaths about trees that an image can hold.
--   Ndfs/FsNamesystem: src/ndfs/fs_namesystem.h, src/ndfs/block.h and src/ndfs/datanode_info.h.
--     Client, DataNodes, SafeMode and Leases hold the methods, each a function from the state to
--     the new state and the result; Targets, Files, Deletion and Invariant hold what is proved.
--   Ndfs/NameNode: src/ndfs/name_node.h, the handlers between the messages and FsNamesystem;
--     Server registers them by their ids. Image has the image of the name space at the start and
--     the stop, and Restart, with SavableTrees, puts the two together.
--   Ndfs/DfsClient: src/ndfs/dfs_client.h, the requests of the client and its reading of the
--     replies; Protocol puts the two sides together. Remote puts Mkdirs and Delete on a connection
--     to the server. Transfer has the messages to a DataNode, and Files WriteFile and ReadFile
--     over a record of what a cluster does: World makes one of the NameNode and the DataNodes,
--     Conditions says what a cluster has to be like, Replies, Placed, Rounds, Allocating and
--     Writing follow the loop of WriteFile, Located, Fetching and Reading read the file back,
--     Refused and Termination are about refused files and about the end. Sample is a cluster for
--     the tests.
--   Ndfs/BlockStorage: src/ndfs/block_storage.h, the block files of a DataNode.
--   Ndfs/DataXceive: src/ndfs/data_xceive_server.h, a connection to a DataNode. Wire is about
--     64-bit integers in network order, Transfer about both ends of the transfer of a block.
--   Ndfs/DataNode: src/ndfs/data_node.h, the heartbeat and the block report; Reports puts them to
--     the NameNode.
--   Ipc/Socket: ReadFull and WriteFull, which src/ipc/server.h, src/ipc/client.h and the two sides
--     of the transfer of blocks have in the same words. Stream shows that segments make no
--     difference.
--   Ipc/Rpc: src/ipc/server.h, a connection to a server with any handlers, and in Client the call
--     of src/ipc/client.h. Requests has the description of a connection, Serving puts the server
--     beside it, Calls both sides of a call; Queue is the queue of the workers, and Queue/Places
--     and Queue/Runs are about its runs.
--   Mapred/DistJobTracker: src/mapred/dist_job_tracker.h. Handlers reads the requests and writes
--     the replies, Schedule makes the polls and the reports in any order a list of events,
--     HandedOut is about the tasks handed out and reported, Invariant says what is true of one
--     job, and Completed, Steps and Jobs keep it.
--   Mapred/JobTracker: src/mapred/job_tracker.h, a job that runs in one process, with the
--     partitioner of src/mapred/api/mapper.h and the reducer of src/mapred/examples/wordcount.h.
--     Grouping is about the loop that collects the values of a key; Tally, Sorting, Sums and
--     Partitions follow the values of a key through the phases of a job, and Counting puts them
--     together.
--   Mapred/TextReader: src/mapred/api/input_format.h, the lines of a text file with their offsets.
--   Mapred/NdfsIo: src/mapred/api/ndfs_io.h, a job's input and output in files of a cluster; Files
--     reads back what a job wrote.
--   Mapred/WordCount: src/mapred/examples/wordcount.h, the mapper and the whole job.
--   Mapred/TaskTracker: src/mapred/task_tracker.h, the reading of replies and the report; Protocol
--     and Reports put both sides of each message together. Execution has the map and reduce tasks
--     and the shuffle server, Shuffle both sides of the shuffle, and Groups and Agreement compare
--     with Mapred/JobTracker.
--
-- Fuel. Seven loops run on fuel. SequenceFileReader::Next has one round for each byte that is left
-- and one more; each round takes four bytes at least, and next-ne-stuck shows that it never runs
-- out. The decimal digits of a number n have n + 1 rounds, and each divides by ten. The grouping of
-- a partition has a round for each output, and ungroup-group shows that it reaches the end; that of
-- a reduce task is the same function, by group_same-eq-group_loop. The loop of WriteFile has a round
-- for each byte of the file, and takes at least one in each; write_file-ne-stuck shows that this is
-- enough for any block size but 0. The records of a text file take a unit for each line, and
-- records-unlines gives as many; so do those of a file of a cluster. All other loops are recursion
-- on a list or on the count that the C++ loop counts up to.
--
-- Parameters. What the client calls is a parameter of it, which the servers fill; what recv delivers
-- and send takes are arguments; std::to_string and the paths of block files are functions of the id;
-- the mapper, the reducer and std::hash are parameters of a job; the digest function of OpenSSL is
-- one of MD5Hash. Random block ids, the clock, the sync bytes, and whether a file can be opened are
-- arguments.
--
-- Not modelled: the stop of a server that has connections, connecting and closing sockets, what
-- threads do outside the mutex, the free space of a disk, floating point values, and the command
-- line. They are listed with their reasons in the project's manifest. The unordered maps are
-- iterated in the order of their association list; C++ leaves that order open. A signed 32-bit
-- difference that overflows is undefined in C++, and wraps here.
pub mod Common
pub mod Status
pub mod Io
pub mod Ipc
pub mod Ndfs
pub mod Mapred
