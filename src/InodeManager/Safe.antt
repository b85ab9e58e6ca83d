-- ===== src/InodeManager/Safe.antt =====
-- The block iterator and the allocation of an inode keep a device well-formed.
use se3331_labs.Common.{
  ℕ, zero, suc, ◌+◌, ◌-◌, ◌*◌, ◌/◌, ◌%◌, Option, none, some, List, ltb, ◌==◌, ◌++◌, if◌then◌else◌,
  replicate, drop, take, u64, u64_mod,
}
use se3331_labs.Result.{ErrorType, Result, ok, err}
use se3331_labs.Bitmap
use se3331_labs.Bitmap.{Bitmap}
use se3331_labs.Bitmap.Bits.{AreBytes}
use se3331_labs.Fields.{bytes_of}
use se3331_labs.Fields.RoundTrip.{append-bytes, take-bytes, drop-bytes, bytes_of-bytes}
use se3331_labs.Block.{
  Cmd, pure, done, fail, ◌>>=◌, ◌>>◌, checked, attempt, unwrapped, block_size, read_block,
  write_block,
}
use se3331_labs.Block.Reads.{Reads, pure-Reads, verify-Reads, bind-Reads, block_size-Reads}
use se3331_labs.Block.Safe.{
  Safe, OnOk, Any, pure-Safe, fail-Safe, checked-Safe, if-Safe, attempt-Safe, unwrapped-Safe,
  bind-Safe, Reads-Safe, read_block-Safe, write_block-Safe, write_partial_block-Safe,
}
use se3331_labs.Block.Iterator
use se3331_labs.Block.Iterator.{BlockIterator, refreshed}
use se3331_labs.Allocator.{bitmap_over, new_buffer}
use se3331_labs.Allocator.Safe.{bitmap_over-Safe}
use se3331_labs.Allocator.Zeroing.{zeros-AreBytes}
use se3331_labs.Inode.{InodeType, new_inode, flush_to_buffer}
use se3331_labs.Inode.Bytes.{of_any, HasBytes, set-HasBytes, flush_to_buffer-AreBytes}
use se3331_labs.InodeManager.{
  InodeManager, nonzero, inode_per_block, ignored, kept, read_into, set_table, take_inode,
  allocate_loop, allocate_inode, raw_to_logic,
}

pub nonzero-Reads : (n : ℕ) → Reads (nonzero n)
unfolding nonzero
nonzero-Reads n = verify-Reads (ltb 0 n) (pure n) (pure-Reads n)

pub inode_per_block-Reads : Reads inode_per_block
unfolding inode_per_block
inode_per_block-Reads =
    bind-Reads block_size (λ sz. nonzero (sz / 8)) block_size-Reads λ sz. nonzero-Reads (sz / 8)

abbrev HasBuffer : BlockIterator → Type 0
HasBuffer it = AreBytes it.buffer

abbrev Moved : BlockIterator × Result (Unit {0}) → Type 0
Moved r = HasBuffer r.0

create-Safe : (first last : ℕ) → Safe HasBuffer (Iterator.create first last)
unfolding Iterator.create
create-Safe first last =
    bind-Safe Any HasBuffer block_size _ (Reads-Safe block_size block_size-Reads) λ sz t.
      bind-Safe AreBytes HasBuffer (read_block (u64 (0 / sz + first)) (replicate sz 0)) _
        (read_block-Safe _ (replicate sz 0) (zeros-AreBytes sz))
        λ bytes h.
          pure-Safe HasBuffer
            (record {
              cur_block_off = 0;
              start_block_id = first;
              end_block_id = last;
              buffer = bytes;
            })
            h

refreshed-Moved :
    (it : BlockIterator) (r : Result (List ℕ))
    → HasBuffer it
    → OnOk AreBytes r
    → Moved (refreshed it r)
unfolding refreshed
refreshed-Moved it (ok bytes) h p = p
refreshed-Moved it (err e) h p = h

next-Safe : (it : BlockIterator) (offset : ℕ) → HasBuffer it → Safe Moved (Iterator.next it offset)
unfolding Iterator.next
next-Safe it offset h bm v =
    let off = u64 (it.cur_block_off + offset) in
    let moved : BlockIterator = record it { cur_block_off = off } in
    let target = u64 (it.start_block_id + off / bm.block_sz) in
    if-Safe Moved (off / bm.block_sz == it.cur_block_off / bm.block_sz) _ _
      (pure-Safe Moved (moved, ok tt) h)
      (if-Safe Moved (ltb it.end_block_id target) _ _
        (pure-Safe Moved (moved, err ErrorType.done) h)
        (bind-Safe (OnOk AreBytes) Moved (attempt (read_block target it.buffer)) _
          (attempt-Safe AreBytes _ (read_block-Safe target it.buffer h))
          λ r p. pure-Safe Moved (refreshed moved r) (refreshed-Moved moved r h p)))
      bm v

has_next-Safe : (it : BlockIterator) → Safe Any (Iterator.has_next it)
unfolding Iterator.has_next
has_next-Safe it bm v =
    pure-Safe Any
      (ltb it.cur_block_off
        (u64 (u64 (it.end_block_id + u64_mod - it.start_block_id) * bm.block_sz)))
      tt bm v

flush_cur_block-Safe : (it : BlockIterator) → HasBuffer it → Safe Any (Iterator.flush_cur_block it)
unfolding Iterator.flush_cur_block
flush_cur_block-Safe it h bm v =
    write_block-Safe (u64 (it.start_block_id + it.cur_block_off / bm.block_sz)) it.buffer h bm v

pointer-Safe :
    (it : BlockIterator) → HasBuffer it → Safe AreBytes (Iterator.unsafe_get_value_ptr it)
unfolding Iterator.unsafe_get_value_ptr
pointer-Safe it h =
    bind-Safe Any AreBytes block_size _ (Reads-Safe block_size block_size-Reads) λ sz t.
      pure-Safe AreBytes (drop (it.cur_block_off % sz) it.buffer)
        (drop-bytes (it.cur_block_off % sz) it.buffer h)

write_through-Safe :
    (it : BlockIterator) (bytes : List ℕ)
    → HasBuffer it
    → AreBytes bytes
    → Safe HasBuffer (Iterator.write_through it bytes)
unfolding Iterator.write_through
write_through-Safe it bytes h g =
    bind-Safe Any HasBuffer block_size _ (Reads-Safe block_size block_size-Reads) λ sz t.
      pure-Safe HasBuffer (record it { buffer = take (it.cur_block_off % sz) it.buffer ++ bytes })
        (append-bytes (take (it.cur_block_off % sz) it.buffer) bytes
          (take-bytes (it.cur_block_off % sz) it.buffer h) g)

ignored-Safe : (m : Cmd (Unit {0})) → Safe Any m → Safe Any (ignored m)
unfolding ignored
ignored-Safe m h =
    bind-Safe (OnOk Any) Any (attempt m) _ (attempt-Safe Any m h) λ r p. pure-Safe Any tt tt

kept-AreBytes :
    (buffer : List ℕ) (r : Result (List ℕ))
    → AreBytes buffer
    → OnOk AreBytes r
    → AreBytes (kept buffer r)
unfolding kept
kept-AreBytes buffer (ok bytes) h p = p
kept-AreBytes buffer (err e) h p = h

read_into-Safe :
    (block_id : ℕ) (buffer : List ℕ) → AreBytes buffer → Safe AreBytes (read_into block_id buffer)
unfolding read_into
read_into-Safe block_id buffer h =
    bind-Safe (OnOk AreBytes) AreBytes (attempt (read_block block_id buffer)) _
      (attempt-Safe AreBytes _ (read_block-Safe block_id buffer h))
      λ r p. pure-Safe AreBytes (kept buffer r) (kept-AreBytes buffer r h p)

set_table-Safe : (idx bid : ℕ) → Safe Any (set_table idx bid)
unfolding set_table
set_table-Safe idx bid =
    bind-Safe Any Any inode_per_block _ (Reads-Safe inode_per_block inode_per_block-Reads) λ per t.
      ignored-Safe _ (
        write_partial_block-Safe (1 + idx / per) (bytes_of 8 bid) (idx % per * 8) 8
          (bytes_of-bytes 8 bid))

-- What `take_inode` does once the bit is set.
make-Safe :
    (now : ℕ) (raw : List ℕ) (type : InodeType) (bid count free_idx : ℕ) (changed : BlockIterator)
    → AreBytes raw
    → HasBuffer changed
    → Safe Any (do
      Iterator.flush_cur_block changed
      sz ← block_size
      inode ← checked (new_inode now type sz)
      buffer ← checked (flush_to_buffer inode raw)
      ignored (write_block bid buffer)
      set_table (u64 (count * sz * 8 + free_idx)) bid
      pure (raw_to_logic (u64 (count * sz * 8 + free_idx))))
make-Safe now raw type bid count free_idx changed r h =
    bind-Safe Any Any (Iterator.flush_cur_block changed) _ (flush_cur_block-Safe changed h) λ u t.
      bind-Safe Any Any block_size _ (Reads-Safe block_size block_size-Reads) λ sz t.
        bind-Safe Any Any (checked (new_inode now type sz)) _ (checked-Safe Any _ (of_any _))
          λ inode t.
            bind-Safe AreBytes Any (checked (flush_to_buffer inode raw)) _
              (checked-Safe AreBytes _ (flush_to_buffer-AreBytes inode raw r))
              λ buffer b.
                bind-Safe Any Any (ignored (write_block bid buffer)) _
                  (ignored-Safe _ (write_block-Safe bid buffer b))
                  λ u t.
                    bind-Safe Any Any (set_table (u64 (count * sz * 8 + free_idx)) bid) _
                      (set_table-Safe (u64 (count * sz * 8 + free_idx)) bid)
                      λ u t. pure-Safe Any (raw_to_logic (u64 (count * sz * 8 + free_idx))) tt

take_inode-Safe :
    (now : ℕ) (raw : List ℕ) (type : InodeType) (bid count : ℕ) (iter : BlockIterator)
    (bitmap : Bitmap) (found : Option ℕ) (rest : Cmd ℕ)
    → AreBytes raw
    → HasBuffer iter
    → HasBytes bitmap
    → Safe Any rest
    → Safe Any (take_inode now raw type bid count iter bitmap found rest)
unfolding take_inode
take_inode-Safe now raw type bid count iter bitmap none rest r h b k = k
take_inode-Safe now raw type bid count iter bitmap (some free_idx) rest r h b k =
    bind-Safe HasBytes Any (checked (Bitmap.set bitmap free_idx)) _
      (checked-Safe HasBytes _ (set-HasBytes bitmap free_idx b))
      λ marked q.
        bind-Safe HasBuffer Any (Iterator.write_through iter marked.bytes) _
          (write_through-Safe iter marked.bytes h q)
          λ changed c. make-Safe now raw type bid count free_idx changed r c

step-Safe :
    (iter : BlockIterator) (go : BlockIterator → Cmd ℕ)
    → HasBuffer iter
    → ((moved : BlockIterator) → HasBuffer moved → Safe Any (go moved))
    → Safe Any (do
      sz ← block_size
      stepped ← Iterator.next iter sz
      unwrapped (done stepped.1)
      go stepped.0)
step-Safe iter go h k =
    bind-Safe Any Any block_size _ (Reads-Safe block_size block_size-Reads) λ sz t.
      bind-Safe Moved Any (Iterator.next iter sz) _ (next-Safe iter sz h) λ stepped q.
        bind-Safe Any Any (unwrapped (done stepped.1)) _
          (unwrapped-Safe Any _ (given-Safe stepped.1)) λ u t. k stepped.0 q
  where
    given-Safe : (r : Result (Unit {0})) → Safe Any (done r)
    given-Safe (ok u) = pure-Safe Any u tt
    given-Safe (err e) = fail-Safe Any e

look-Safe :
    (now : ℕ) (raw : List ℕ) (type : InodeType) (bid count : ℕ) (iter : BlockIterator)
    (rest : Cmd ℕ)
    → AreBytes raw
    → HasBuffer iter
    → Safe Any rest
    → Safe Any (do
      more ← Iterator.has_next iter
      if more
          then (do
            data_ptr ← Iterator.unsafe_get_value_ptr iter
            bitmap ← bitmap_over data_ptr
            free_idx ← checked (Bitmap.find_first_free bitmap)
            take_inode now raw type bid count iter bitmap free_idx rest)
          else fail ErrorType.out_of_resource)
look-Safe now raw type bid count iter rest r h k =
    bind-Safe Any Any (Iterator.has_next iter) _ (has_next-Safe iter) λ more t.
      if-Safe Any more _ _
        (bind-Safe AreBytes Any (Iterator.unsafe_get_value_ptr iter) _ (pointer-Safe iter h)
          λ data_ptr d.
            bind-Safe HasBytes Any (bitmap_over data_ptr) _ (bitmap_over-Safe data_ptr d)
              λ bitmap b.
                bind-Safe Any Any (checked (Bitmap.find_first_free bitmap)) _
                  (checked-Safe Any _ (of_any _))
                  λ free_idx t.
                    take_inode-Safe now raw type bid count iter bitmap free_idx rest r h b k)
        (fail-Safe Any ErrorType.out_of_resource)

allocate_loop-Safe :
    (now : ℕ) (raw : List ℕ) (type : InodeType) (bid n count : ℕ) (iter : BlockIterator)
    → AreBytes raw
    → HasBuffer iter
    → Safe Any (allocate_loop now raw type bid n count iter)
unfolding allocate_loop
allocate_loop-Safe now raw type bid zero count iter r h = fail-Safe Any ErrorType.out_of_resource
allocate_loop-Safe now raw type bid (suc n) count iter r h =
    look-Safe now raw type bid count iter _ r h (
      step-Safe iter (allocate_loop now raw type bid n (count + 1)) h
        λ moved q. allocate_loop-Safe now raw type bid n (count + 1) moved r q)

pub allocate_inode-Safe :
    (now : ℕ) (raw : List ℕ) (im : InodeManager) (type : InodeType) (bid : ℕ)
    → AreBytes raw
    → Safe Any (allocate_inode now raw im type bid)
unfolding allocate_inode
allocate_inode-Safe now raw im type bid r =
    bind-Safe HasBuffer Any
      (Iterator.create (1 + im.n_table_blocks) (1 + im.n_table_blocks + im.n_bitmap_blocks)) _
      (create-Safe (1 + im.n_table_blocks) (1 + im.n_table_blocks + im.n_bitmap_blocks))
      λ iter h. allocate_loop-Safe now raw type bid (im.n_bitmap_blocks + 1) 0 iter r h

-- What `free_inode` does to the inode bitmap.
abbrev clear_in : (target idx : ℕ) → Cmd (Unit {0})
clear_in target idx = do
  buffer ← new_buffer
  bytes ← read_into target buffer
  bitmap ← bitmap_over bytes
  cleared ← checked (Bitmap.clear bitmap idx)
  ignored (write_block target cleared.bytes)
