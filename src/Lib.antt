-- ===== src/Lib.antt =====
-- cbtree (src/Bolt): a key-value store in one file, with B+ trees of pages, copy-on-write
-- transactions and nested buckets. This library models the parts below as functions on values and
-- proves what makes them correct.
--
-- How the program works: the file starts with two meta pages; the newer valid one names the page of
-- the free list and the root page of the root bucket. A bucket is a B+ tree of branch and leaf
-- pages; a node is the page in memory, made when it is about to change. A cursor walks the pages and
-- nodes of a bucket with a stack. A write transaction works on a copy of the meta, frees the pages
-- it replaces into the pending part of the free list, and writes its meta last, to the older meta
-- page. Pages become free when no reader is left that can see them.
--
--   Base       numbers, tests, lists, association lists for the maps, sorting, runs that may abort
--   Page       page.h, type.h, meta.h: Page with its header, the elements, the flags; a Body is what
--              stands behind a header, by the layout that wrote it and not by bytes
--   Item       Item of type.h: a key or value as its bytes
--   FreeList   freeList.h, freeList.cc: every method of freeList as a function of its three maps
--   Search     the binary search of node.cc and cursor.cc
--   Node       node.h, node.cc: the methods that work on one node
--   Heap       the nodes by address, for what shares them
--   Split      Node::splitTwo and Node::split of node.cc
--   Codec      Node::read and Node::write of node.cc
--   Bucket     Bucket::getNode and getPageNode of bucket.cc, Node::childAt
--   Cursor     cursor.h, cursor.cc: every operation of Cursor
--   Tree       the map that the tree of a bucket stands for, the searches on it, the walk over it
--   Api        Bucket::get, put, remove, deleteBucket up to its tests, for_each, for_each_page_node
--   Work       Node::spill, free, root and removeChild of node.cc: a bucket with the pages of its
--              transaction
--   Rebalance  Node::rebalance and the siblings of a node, of node.cc
--   Inline     Bucket::write and openBucket of bucket.cc: a bucket in a value, byte by byte
--   SubBuckets a bucket with the buckets in it: getBucketByName, createBucket, deleteBucket, and in
--              SubBuckets/Spill free, rebalance and spill of bucket.cc
--   Meta       meta.cc, DB::getMeta, the metas of DB::Init, Tx::writeMeta
--   Db         DB::beginTx, beginRWTx, closeTx, view, update, getMmapSize of db.cc, Tx::rollback of
--              tx.cc; in Db/Steps their calls in any order, and in Db/Files DB::Open, DbClose,
--              Init, initMeta, and FlockUtil::lock of util.h
--   Commit     Tx::commit, write, writeMeta and rollback of tx.cc, DB::grow
--   TxPages    DB::allocate of db.cc, Tx::allocate and getPage of tx.cc
--   Pool       ObjPool of obj_pool.h
--   Examples   runs on concrete inputs
--
-- State is passed explicitly: a bucket carries the heap of its nodes, and what it asks of its
-- transaction is the record TxView. A failed assertion or LOG(FATAL) is `none` or `aborted`. Words of
-- 32 and 64 bits wrap where the source's arithmetic can reach the bound; lengths of lists are taken
-- as they are where the source stores them in 64 bits.
--
-- Fuel: the binary search takes the width of its range, which each round makes smaller; `split`
-- takes the number of inodes, since each piece has at least two; the walks down a tree take one
-- more than its levels of branches. Where a theorem says that such a function returns, it is with
-- that fuel.
--
-- The fuel of `spill` and `rebalance` bounds the height of the tree and the number of children.
-- Work/Spill gives the fuel that is enough for a root that is a lone leaf, and Rebalance/Merges that
-- for a merge after which the parent stays as it is; about larger trees the theorems speak of the
-- runs that end.
--
-- Parameters: Db.update takes `Tx::commit` as any function; Commit.commit takes the spilling of the
-- buckets as any function, and SubBuckets.Spill.spill_all is the one of the program; TxPages.db_allocate
-- takes `DB::initMeta`, of which it uses the status and the new length of the map. What the system
-- does (which writes, synchronizations and maps succeed, what a failed write leaves behind, the
-- order of pointers in std::sort) is a record of its answers. Base.Sort and Base.Assoc model
-- std::sort on numbers and the maps.
--
-- Not modelled: what deleteBucket does once it has a bucket, dereference, Tx::for_each_page, the commit
-- handlers and statistics, logging, the memory behind pointers, and threads: an operation runs to its
-- end. The vendored headers under third_party and file_util.cc are copies of other projects; the
-- program calls one function of file_util.cc, the size of a file.
pub mod Base
pub mod Page
pub mod FreeList
pub mod Item
pub mod Search
pub mod Node
pub mod Heap
pub mod Split
pub mod Codec
pub mod Bucket
pub mod Cursor
pub mod Tree
pub mod Api
pub mod Meta
pub mod Db
pub mod TxPages
pub mod Commit
pub mod Work
pub mod Rebalance
pub mod Inline
pub mod SubBuckets
pub mod Pool
mod Examples
