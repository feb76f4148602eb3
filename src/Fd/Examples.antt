-- ===== src/Fd/Examples.antt =====
-- File descriptors of src/uffs_fd.c for a pool of three objects.
use esp_uffs.Prelude.{ℕ, ◌+◌, ◌*◌, ◌≡◌, ◌⊎◌, refl, none, some, false, arith}
use esp_uffs.Pool.{Pool, returns, pool_init}
use esp_uffs.Pool.Chain.{IsPool, Member, Absent}
use esp_uffs.Pool.Init.{buffers, pool_init-IsPool}
use esp_uffs.Fd.{obj2fd, chk_obj}
use esp_uffs.Fd.Signature.{after_formats}
use esp_uffs.Fd.Handle.{chk_obj-obj2fd, chk_obj-after_formats}

abbrev raw : Pool
raw = record { mem = 0; buf_size = 0; num_bufs = 0; free_list = 0; sem = false; next = λ x. 0 }

abbrev objects : Pool
objects = (pool_init 8 raw 1000 48 16 3 false).1

objects-IsPool : IsPool objects (buffers 1000 16 0 3)
objects-IsPool =
    (pool_init-IsPool 8 raw 1000 48 16 3 false (omega arith) (omega arith) (omega arith)
      (omega arith) refl refl).1

chk_obj-obj2fd_example :
    (fd : ℕ) × (obj2fd objects 7 (objects.mem + 1 * objects.buf_size) ≡ returns fd)
    × (((chk_obj objects 7 fd ≡ returns (some (objects.mem + 1 * objects.buf_size)))
          × Absent (objects.mem + 1 * objects.buf_size) (buffers 1000 16 0 3))
        ⊎ ((chk_obj objects 7 fd ≡ returns none)
            × Member (objects.mem + 1 * objects.buf_size) (buffers 1000 16 0 3)))
unfolding pool_init
chk_obj-obj2fd_example =
    chk_obj-obj2fd objects (buffers 1000 16 0 3) 7 1 objects-IsPool (omega arith) (omega arith)
      (omega arith)

chk_obj-after_formats_example :
    (fd : ℕ) × (obj2fd objects 101 (objects.mem + 1 * objects.buf_size) ≡ returns fd)
    × (chk_obj objects (after_formats 1 101) fd ≡ returns none)
unfolding pool_init
chk_obj-after_formats_example =
    chk_obj-after_formats objects (buffers 1000 16 0 3) 101 1 1 objects-IsPool (omega arith)
      (omega arith) (omega arith) (omega arith) (omega arith)
