-- ===== src/Calls/Tests.antt =====
-- The calls of kernel/source/system/syscall/vfs.cpp on one regular file, over a device that is a memory.
use ilobilix.Base.{
  ℕ, ◌+◌, max, ◌≡◌, ◌≢◌, refl, true, false, List, [], ◌∷◌, length, pos, negsuc, arith, ap,
}
use ilobilix.Libc.{Memory, load, store_all}
use ilobilix.Vfs.{get, FdTable, is_read, is_write}
use ilobilix.Files.{Desc, ok, Ops, Kernel, set_offset}
use ilobilix.Calls.{read, write, pread, pwrite}
use ilobilix.Calls.Offsets.{moved_on, read-pread}
use ilobilix.Calls.Seek.{lseek, pattern, lseek_lem}
use ilobilix.Calls.Descriptors.{dup2}
use ilobilix.Calls.Sharing.{dup2_shares}
use ilobilix.Calls.Storage.{Keeps, load-store_all, pwrite-pread}

-- A read or a write at an offset of the one file
abbrev store_ops : Ops Memory
store_ops = record {
  read = λ f o n i m. (ok (load n o m), i, m);
  write = λ f o bytes i m. (
    ok (length bytes),
    record i { st_size = max i.st_size (o + length bytes) },
    store_all bytes o m,
  );
  close = λ f m. (true, m);
}

abbrev store_keeps : Keeps store_ops
store_keeps = record {
  inode_after = λ f o bytes i m. record i { st_size = max i.st_size (o + length bytes) };
  after = λ f o bytes i m. store_all bytes o m;
  write_all = λ f o bytes i m. refl;
  same_stat = λ f o bytes i m. refl;
  read_back = λ f o bytes i j m stat size. ap (λ (l : List ℕ). ok l) (load-store_all bytes o m);
}

abbrev desc : Desc
desc = record { file = 7; closexec = false }

-- Descriptor 3 is open for reading and writing, at offset 100.
abbrev kernel : Kernel Memory
kernel = record {
  fdt = record { fds = (3, desc) ∷ []; next_fd = 0 };
  file = λ f. record { inode = 0; offset = 100; flags = 2 };
  inode = λ i. record {
    stat = record { st_mode = 33188; st_uid = 0; st_gid = 0 };
    st_size = 4096;
    st_atim = 0;
    st_mtim = 0;
    st_ctim = 0;
  };
  user = λ a. a;
  device = λ a. 5;
  now = 9;
}

write_test :
    ((write store_ops (pos 3) 20 2 kernel).0 ≡ ok 2)
    × ((write store_ops (pos 3) 20 2 kernel).1.device 101 ≡ 21)
unfolding write load store_all get
write_test = (refl, refl)

read-pread_example :
    read store_ops (pos 3) 20 2 kernel ≡ moved_on 7 (pread store_ops (pos 3) 20 2 100 kernel)
unfolding get
read-pread_example = read-pread store_ops 3 20 2 desc kernel refl

pwrite-pread_example :
    (k1 : Kernel Memory) × (k2 : Kernel Memory) × (pwrite store_ops (pos 3) 20 2 50 kernel
      ≡ (ok 2, k1))
    × (pread store_ops (pos 3) 60 2 50 k1 ≡ (ok 2, k2))
    × (load 2 60 k2.user ≡ load 2 20 kernel.user)
unfolding get is_read is_write
pwrite-pread_example =
    pwrite-pread store_ops store_keeps 3 20 60 2 50 desc kernel refl refl refl refl

lseek_lem_example :
    lseek (pos 3) (pattern (negsuc 9)) 1 kernel ≡ (ok 90, (set_offset 7 90 kernel).1)
unfolding get
lseek_lem_example =
    lseek_lem 3 1 (negsuc 9) desc kernel refl refl refl (omega arith) (omega arith) (omega arith)
      (omega arith)

dup2_shares_example :
    (t : FdTable Desc) × (dup2 (pos 3) (pos 5) kernel ≡ (ok 5, record kernel { fdt = t }))
    × ((x : ℕ) → x ≢ 5 → get t x ≡ get (kernel.fdt) x)
    × ((buf count : ℕ)
        → (read store_ops (pos 5) buf count (record kernel { fdt = t })
            ≡ read store_ops (pos 3) buf count (record kernel { fdt = t }))
          × (write store_ops (pos 5) buf count (record kernel { fdt = t })
              ≡ write store_ops (pos 3) buf count (record kernel { fdt = t })))
unfolding get
dup2_shares_example = dup2_shares store_ops 3 5 desc kernel refl (omega arith)
