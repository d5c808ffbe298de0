-- ===== src/Calls/Storage.antt =====
-- kernel/source/system/syscall/vfs.cpp: what `pwrite` stores, `pread` gives back, over a device that
-- keeps what is written.
use ilobilix.Base.{
  ℕ, ◌+◌, ◌<◌, ◌≡◌, refl, true, false, List, [], ◌∷◌, some, length, pos, arith, ap₂, ap, ◌∙◌, ◌==◌,
  bit_and, subst,
}
use ilobilix.Libc.{Memory, load, store, store_all}
use ilobilix.Libc.Words.{length-load}
use ilobilix.Vfs.{get, is_read, is_write, s_ifdir, s_ifmt}
use ilobilix.Files.{Desc, Inode, set_inode, ok, Ops, Kernel, file_pread, file_pwrite}
use ilobilix.Calls.{not_directory, has_type, deliver, report, pread, pwrite}
use ilobilix.Calls.Offsets.{==_refl, readable-some, writable-some}

-- A write takes all the bytes and keeps the mode and the owner of the inode, and a read of as many at the
-- same place gives them back, whatever the times of the inode.
pub record Keeps {D : Type 0} (ops : Ops D) : Type 0 where
  pub inode_after : ℕ → ℕ → List ℕ → Inode → D → Inode
  pub after : ℕ → ℕ → List ℕ → Inode → D → D
  pub write_all :
      (f o : ℕ) (bytes : List ℕ) (i : Inode) (v : D)
      → ops.write f o bytes i v
        ≡ (ok (length bytes), inode_after f o bytes i v, after f o bytes i v)
  pub same_stat :
      (f o : ℕ) (bytes : List ℕ) (i : Inode) (v : D) → (inode_after f o bytes i v).stat ≡ i.stat
  pub read_back :
      (f o : ℕ) (bytes : List ℕ) (i j : Inode) (v : D)
      → j.stat ≡ i.stat
      → j.st_size ≡ (inode_after f o bytes i v).st_size
      → (ops.read f o (length bytes) j (after f o bytes i v)).0 ≡ ok bytes

store_all_before : (bytes : List ℕ) (a x : ℕ) (m : Memory) → x < a → store_all bytes a m x ≡ m x
unfolding store_all
store_all_before [] a x m h = refl
store_all_before (b ∷ bytes) a x m h =
    ground (arith, store_all_before bytes (a + 1) x (store m a b))

pub load-store_all :
    (bytes : List ℕ) (a : ℕ) (m : Memory) → load (length bytes) a (store_all bytes a m) ≡ bytes
unfolding load store_all
load-store_all [] a m = refl
load-store_all (b ∷ bytes) a m =
    ap₂ (λ (x : ℕ) (l : List ℕ). x ∷ l)
      (ground (arith, store_all_before bytes (a + 1) a (store m a b)))
      (load-store_all bytes (a + 1) (store m a b))

pread_ok :
    {D : Type 0} (ops : Ops D) (fd to count offset : ℕ) (d : Desc) (k : Kernel D) (bytes : List ℕ)
    → get k.fdt fd ≡ some d
    → is_read (k.file d.file).flags ≡ true
    → has_type (k.inode (k.file d.file).inode) s_ifdir ≡ false
    → (ops.read d.file offset count (k.inode (k.file d.file).inode) k.device).0 ≡ ok bytes
    → length bytes ≡ count
    → pread ops (pos fd) to count offset k
      ≡ (ok count, (deliver d.file to bytes (file_pread ops d.file offset count k).1).1)
unfolding pread file_pread not_directory
pread_ok ops fd to count offset d k bytes h r t got whole =
    rw (readable-some k fd d h, r, t, got, whole) refl

module _ {D : Type 0} (ops : Ops D) (keeps : Keeps ops) where
  -- For a descriptor that is open for reading and writing and no directory, over a device that keeps
  -- what is written and the mode and owner of the inode: pwrite of `count` bytes returns `count`, and then a pread of as many at the same
  -- offset returns `count` and leaves at its buffer the bytes that stood at the buffer of pwrite.
  pub pwrite-pread :
      (fd buf to count offset : ℕ) (d : Desc) (k : Kernel D)
      → get k.fdt fd ≡ some d
      → is_read (k.file d.file).flags ≡ true
      → is_write (k.file d.file).flags ≡ true
      → has_type (k.inode (k.file d.file).inode) s_ifdir ≡ false
      → (k1 : Kernel D) × (k2 : Kernel D) × (pwrite ops (pos fd) buf count offset k
          ≡ (ok count, k1))
        × (pread ops (pos fd) to count offset k1 ≡ (ok count, k2))
        × (load count to k2.user ≡ load count buf k.user)
  unfolding pwrite pread file_pwrite file_pread
  pwrite-pread fd buf to count offset d k h r w t =
      let f = d.file in
      let i = (k.file f).inode in
      let x = k.inode i in
      let bytes = load count buf k.user in
      let whole : length bytes ≡ count = length-load count buf k.user in
      let y = keeps.inode_after f offset bytes x k.device in
      let v = keeps.after f offset bytes x k.device in
      let k1 = (report f count (set_inode i y v k)).1 in
      let touched : k1.inode i ≡ record y { st_mtim = k.now; st_ctim = k.now } =
        rw (==_refl i) refl in
      let stat : (k1.inode i).stat ≡ x.stat =
        ap (λ (z : Inode). z.stat) touched ∙ keeps.same_stat f offset bytes x k.device in
      let size : (k1.inode i).st_size ≡ y.st_size = ap (λ (z : Inode). z.st_size) touched in
      let got : (ops.read f offset count (k1.inode i) v).0 ≡ ok bytes =
        subst (λ (n : ℕ). (ops.read f offset n (k1.inode i) v).0 ≡ ok bytes) whole
          (keeps.read_back f offset bytes x (k1.inode i) k.device stat size) in
      let still : has_type (k1.inode i) s_ifdir ≡ false =
        ap (λ z. bit_and z.st_mode s_ifmt == s_ifdir) stat ∙ t in
      let k2 = (deliver f to bytes (file_pread ops f offset count k1).1).1 in
      (
        k1,
        k2,
        rw (writable-some k fd d h, w, keeps.write_all f offset bytes x k.device, whole) refl,
        pread_ok ops fd to count offset d k1 bytes h r still got whole,
        subst (λ (n : ℕ). load n to (store_all bytes to k.user) ≡ bytes) whole
            (load-store_all bytes to k.user),
      )
