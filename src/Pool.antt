-- ===== src/Pool.antt =====
-- src/uffs_pool.c: a pool of equal buffers with a linked list of the free ones.
-- An address is a number and NULL is 0. `next` is the memory that the pool's entries take, the
-- field `next` of the entry at each address. The pool itself is never NULL. The semaphore is held
-- or free only within a call, so that what is left of it here is whether it exists.
pub mod Chain
pub mod Init
pub mod Blocks
pub mod Walk
pub mod Search
mod Examples
use esp_uffs.Prelude.{
  ℕ, zero, suc, ◌+◌, ◌-◌, ◌*◌, ◌/◌, ◌%◌, bit_and, bit_or, Bool, true, false, not, ◌&&◌, ltb, leb,
  ◌==◌, if◌then◌else◌, write,
}
use esp_uffs.Prelude.Words.{u32, ◌<<<◌}

pub record Pool : Type 0 where
  pub mem : ℕ
  pub buf_size : ℕ
  pub num_bufs : ℕ
  pub free_list : ℕ
  pub sem : Bool
  pub next : ℕ → ℕ

-- How a call ends: with a value, in uffs_Panic, which does not return, or not within the rounds
-- that the model gives its loops.
pub data Outcome {ℓ} (A : Type ℓ) : Type ℓ where
  returns : A → Outcome A
  panics : Outcome A
  unfinished : Outcome A

-- The loop that links the buffers, from `e1` on; `rounds` of them are left.
unfoldable pub link_loop : ℕ → ℕ → ℕ → ℕ → ℕ → (ℕ → ℕ) → ℕ → ℕ
unfolding write
link_loop zero i mem buf_size e1 next = write next e1 0
link_loop (suc rounds) i mem buf_size e1 next =
    let e2 = mem + u32 (i * buf_size) in link_loop rounds (i + 1) mem buf_size e2 (write next e1 e2)

unfoldable pub pool_init : ℕ → Pool → ℕ → ℕ → ℕ → ℕ → Bool → Bool × Pool
unfolding link_loop
pool_init ptr_size pool mem mem_size buf_size num_bufs lock =
    if not (mem == 0)
      && ltb 0 num_bufs
      && (buf_size % ptr_size == 0)
      && (mem_size == u32 (num_bufs * buf_size))
    then (
      true,
      record {
        mem = mem;
        buf_size = buf_size;
        num_bufs = num_bufs;
        free_list = mem;
        sem = lock;
        next = link_loop (num_bufs - 1) 1 mem buf_size mem pool.next;
      },
    )
    else (false, pool)

unfoldable pub pool_verify : Pool → ℕ → Bool
pool_verify pool p =
    not (p == 0)
    && leb pool.mem p
    && ltb p (pool.mem + u32 (pool.buf_size * pool.num_bufs))
    && ((p - pool.mem) % pool.buf_size == 0)

unfoldable pub pool_release : Pool → Bool × Pool
pool_release pool = (true, record pool { sem = false })

unfoldable pub pool_get : Pool → ℕ × Pool
pool_get pool =
    if pool.free_list == 0
    then (0, pool)
    else (pool.free_list, record pool { free_list = pool.next pool.free_list })

unfoldable pub pool_get_locked : Pool → ℕ × Pool
unfolding pool_get
pool_get_locked pool = if pool.sem then pool_get pool else (0, pool)

-- `true` stands for the result 0, `false` for -1.
unfoldable pub pool_put : Pool → ℕ → Bool × Pool
unfolding write
pool_put pool p =
    if p == 0
    then (false, pool)
    else (true, record pool { next = write pool.next p pool.free_list; free_list = p })

unfoldable pub pool_put_locked : Pool → ℕ → Bool × Pool
unfolding pool_put
pool_put_locked pool p = if pool.sem then pool_put pool p else (false, pool)

unfoldable pub pool_get_buf_by_index : Pool → ℕ → ℕ
pool_get_buf_by_index pool index =
    if ltb index pool.num_bufs then pool.mem + u32 (index * pool.buf_size) else 0

unfoldable pub pool_get_index : Pool → ℕ → Outcome ℕ
pool_get_index pool p =
    if leb pool.mem p && ltb p (pool.mem + u32 (pool.num_bufs * pool.buf_size))
    then returns (u32 ((p - pool.mem) / pool.buf_size))
    else panics

-- Rounds for a walk of the free list: one for each buffer, and one to see the end.
abbrev pub walk_fuel : Pool → ℕ
walk_fuel pool = suc pool.num_bufs

unfoldable pub in_free_list : ℕ → (ℕ → ℕ) → ℕ → ℕ → Outcome Bool
in_free_list zero next e p = unfinished
in_free_list (suc fuel) next e p =
    let rest = in_free_list fuel next (next e) p in
    if e == 0 then returns false else if e == p then returns true else rest

unfoldable pub pool_check_free_list : Pool → ℕ → Outcome Bool
pool_check_free_list pool p = in_free_list (walk_fuel pool) pool.next pool.free_list p

-- `map |= (1 << index)`, when the index is found.
unfoldable pub mark_index : Outcome ℕ → ℕ → (ℕ → Outcome ℕ) → Outcome ℕ
mark_index (returns index) map rest = rest (bit_or map (u32 (1 <<< index)))
mark_index panics map rest = panics
mark_index unfinished map rest = unfinished

unfoldable pub free_map : ℕ → Pool → ℕ → ℕ → Outcome ℕ
unfolding mark_index
free_map zero pool e map = unfinished
free_map (suc fuel) pool e map =
    if e == 0
    then returns map
    else mark_index (pool_get_index pool e) map (free_map fuel pool (pool.next e))

-- The first index from `i` on whose bit is clear.
unfoldable pub skip_free : ℕ → ℕ → ℕ → ℕ → ℕ
skip_free zero map i num_bufs = i
skip_free (suc fuel) map i num_bufs =
    let rest = skip_free fuel map (i + 1) num_bufs in
    if not (bit_and map (u32 (1 <<< i)) == 0) && ltb i 32 && ltb i num_bufs then rest else i

unfoldable pub found_index : Pool → ℕ → ℕ
found_index pool i = if ltb i 32 && ltb i pool.num_bufs then pool_get_buf_by_index pool i else 0

unfoldable pub start_search : Pool → ℕ → Outcome ℕ → Outcome ℕ
unfolding skip_free found_index
start_search pool map (returns i) = returns (found_index pool (skip_free 33 map i pool.num_bufs))
start_search pool map panics = panics
start_search pool map unfinished = unfinished

unfoldable pub with_map : Pool → ℕ → Outcome ℕ → Outcome ℕ
unfolding start_search
with_map pool from (returns map) = start_search pool map (pool_get_index pool from)
with_map pool from panics = panics
with_map pool from unfinished = unfinished

unfoldable pub find_next_allocated_in_small_pool : Pool → ℕ → Outcome ℕ
unfolding free_map with_map
find_next_allocated_in_small_pool pool from =
    with_map pool from (free_map (walk_fuel pool) pool pool.free_list 0)

-- The outer loop goes on while the buffer at hand is free.
unfoldable pub next_or_stop : Outcome Bool → ℕ → Outcome ℕ → Outcome ℕ
next_or_stop (returns true) p rest = rest
next_or_stop (returns false) p rest = returns p
next_or_stop panics p rest = panics
next_or_stop unfinished p rest = unfinished

unfoldable pub skip_loop : ℕ → Pool → ℕ → Outcome ℕ
unfolding next_or_stop
skip_loop zero pool p = unfinished
skip_loop (suc fuel) pool p =
    let rest = skip_loop fuel pool (p + pool.buf_size) in
    if pool_verify pool p
    then next_or_stop (in_free_list (walk_fuel pool) pool.next pool.free_list p) p rest
    else returns p

unfoldable pub verified : Pool → Outcome ℕ → Outcome ℕ
verified pool (returns p) = returns (if pool_verify pool p then p else 0)
verified pool panics = panics
verified pool unfinished = unfinished

unfoldable pub pool_find_next_allocated : Pool → ℕ → Outcome ℕ
unfolding skip_loop verified
pool_find_next_allocated pool from =
    let p = if from == 0 then pool.mem else from + pool.buf_size in
    if ltb pool.num_bufs 32
    then find_next_allocated_in_small_pool pool p
    else if pool.free_list == 0
    then verified pool (returns p)
    else verified pool (skip_loop (walk_fuel pool) pool p)

unfoldable pub free_count : ℕ → (ℕ → ℕ) → ℕ → ℕ → Outcome ℕ
free_count zero next e count = unfinished
free_count (suc fuel) next e count =
    let rest = free_count fuel next (next e) (count + 1) in if e == 0 then returns count else rest

unfoldable pub pool_get_free_count : Pool → Outcome ℕ
pool_get_free_count pool = free_count (walk_fuel pool) pool.next pool.free_list 0

unfoldable pub put_found :
    Outcome ℕ → Pool → ℕ → (Pool → ℕ → ℕ → Outcome (ℕ × Pool)) → Outcome (ℕ × Pool)
put_found (returns p) pool count rest =
    if p == 0 then returns (count, pool) else rest ((pool_put pool p).1) p (count + 1)
put_found panics pool count rest = panics
put_found unfinished pool count rest = unfinished

unfoldable pub put_all_loop : ℕ → Pool → ℕ → ℕ → Outcome (ℕ × Pool)
unfolding put_found
put_all_loop zero pool p count = unfinished
put_all_loop (suc fuel) pool p count =
    put_found (pool_find_next_allocated pool p) pool count (put_all_loop fuel)

-- The number of buffers put back, and the pool after it.
unfoldable pub pool_put_all : Pool → Outcome (ℕ × Pool)
unfolding put_all_loop
pool_put_all pool = put_all_loop (walk_fuel pool) pool 0 0
