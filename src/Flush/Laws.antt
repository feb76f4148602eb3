-- ===== src/Flush/Laws.antt =====
-- src/uffs_buf.c: what the copy of a block to an erased block relies on and keeps.
use esp_uffs.Prelude.{
  ℕ, ◌%◌, ◌<◌, arith, ◌≤◌, ◌≡◌, ◌≢◌, sym, ◌∙◌, ap, List, true, false, none, some, ◌==◌, ◌⊎◌, ◌||◌,
  ◌&&◌,
}
use esp_uffs.Prelude.Words.{u8}
use esp_uffs.TagStore.{slice}
use esp_uffs.Pool.Chain.{Member, Absent}
use esp_uffs.BlockInfo.{Tags}
use esp_uffs.BlockInfo.Expired.{IsInfo}
use esp_uffs.Flash.{Bytes}
use esp_uffs.Public.{get_tag, tag_is_good, invalid_page}
use esp_uffs.Public.Again.{IsRead}
use esp_uffs.Buf.{Buf, PageBufs, matches}
use esp_uffs.DirtyBuf.{find_buf_in_dirty_list}
use esp_uffs.Flush.{
  FlashCalls, Work, Owner, Copying, put_tag, clip, is_good_write, write_fresh, fresh_tag,
}

-- What a page of the flash holds: its data bytes and the fields of its tag.
pub record Page : Type 0 where
  pub content : List ℕ
  pub kind : ℕ
  pub parent : ℕ
  pub serial : ℕ
  pub page_id : ℕ
  pub data_len : ℕ
  pub block_ts : ℕ

-- The data bytes of a buffer.
abbrev pub page_data : ℕ → Bytes → List ℕ
page_data size content = slice (λ k. u8 (content k)) 0 size

abbrev pub page_of : ℕ → Bytes → Tags → Page
page_of size content tag = record {
  content = page_data size content;
  kind = tag.kind;
  parent = tag.parent;
  serial = tag.serial;
  page_id = tag.page_id;
  data_len = tag.data_len;
  block_ts = tag.block_ts;
}

-- The values of a tag fit the bits of its fields.
pub record FitsTag (tag : Tags) : Type 0 where
  pub kind : tag.kind < 4
  pub block_ts : tag.block_ts < 4
  pub data_len : tag.data_len < 4096
  pub serial : tag.serial < 16384
  pub parent : tag.parent < 1024
  pub page_id : tag.page_id < 64

pub fresh_tag-FitsTag : (o : Owner) (i n : ℕ) (tag : Tags) → FitsTag (fresh_tag o i n tag)
unfolding fresh_tag
fresh_tag-FitsTag o i n tag = record {
  kind = omega arith;
  block_ts = omega arith;
  data_len = omega arith;
  serial = omega arith;
  parent = omega arith;
  page_id = omega arith;
}

-- The page `j` of the owner `o` with a buffer's data, each field cut to its bits in the tag.
abbrev pub page_under : Owner → ℕ → ℕ → Bytes → ℕ → Page
page_under o size j content data_len = record {
  content = page_data size content;
  kind = o.kind % 4;
  parent = o.parent % 1024;
  serial = o.serial % 16384;
  page_id = j % 64;
  data_len = data_len % 4096;
  block_ts = o.time_stamp % 4;
}

-- What the copy relies on: a page that is written without an error under a tag that fits its
-- bits holds the buffer's data bytes and that tag, and a
-- write leaves the other pages alone.
pub record IsFlash {D : Type 0} (calls : FlashCalls D) (held : D → ℕ → ℕ → Page) : Type 0 where
  pub written :
      (d : D) (block page : ℕ) (b : Buf) (tag : Tags)
      → FitsTag tag
      → is_good_write (calls.write_page d block page b tag).0 ≡ true
      → held ((calls.write_page d block page b tag).2) block page
        ≡ page_of calls.pg_data_size b.content tag
  pub other_page :
      (d : D) (block page : ℕ) (b : Buf) (tag : Tags) (page' : ℕ)
      → page' ≢ page
      → held ((calls.write_page d block page b tag).2) block page' ≡ held d block page'
  pub other_block :
      (d : D) (block page : ℕ) (b : Buf) (tag : Tags) (block' page' : ℕ) (old : Bytes)
      → block' ≢ block
      → calls.read_page ((calls.write_page d block page b tag).2) block' page' old
        ≡ calls.read_page d block' page' old

-- What stays of the buffers over the rounds of a copy: all but the clone buffers.
pub record SameBufs (s t : PageBufs) : Type 0 where
  pub groups : t.groups ≡ s.groups
  pub clones : t.clones ≡ s.clones
  pub limit : t.pg_data_size ≡ s.pg_data_size
  pub buf : (q : ℕ) → Absent q s.clones → t.buf q ≡ s.buf q
  pub list : (q : ℕ) → Member q t.list → Member q s.list

module _ {D : Type 0} (calls : FlashCalls D) (held : D → ℕ → ℕ → Page) (o : Owner) (pages : ℕ)
    (dirty : List ℕ) where
  -- A copy can start: the tags of the old block are read, the new block is another one, the buffers fit
  -- and are not held too often, and the clone buffers stand in neither list.
  pub record IsReady (w : Work D) : Type 0 where
    pub info : IsInfo pages w.old
    pub all_read : IsRead pages w.old
    pub small : pages ≤ invalid_page
    pub apart : w.old.block ≢ w.fresh.block
    pub few : (q : ℕ) → Absent q w.bufs.clones → (w.bufs.buf q).ref_count < 0xfffe
    pub fits : (q : ℕ) → Absent q w.bufs.clones → (w.bufs.buf q).data_len ≤ w.bufs.pg_data_size
    pub listed : (q : ℕ) → Member q w.bufs.list → Absent q w.bufs.clones
    pub dirty_listed : (q : ℕ) → Member q dirty → Absent q w.bufs.clones

  -- What stays of the blocks over the rounds of a copy.
  pub record SameBlocks (w0 w : Work D) : Type 0 where
    pub old : w.old ≡ w0.old
    pub fresh : w.fresh.block ≡ w0.fresh.block
    pub read :
        (page : ℕ) (c : Bytes)
        → calls.read_page w.dev w0.old.block page c ≡ calls.read_page w0.dev w0.old.block page c

  -- Where page `j` of the new block comes from: the dirty buffer with the page id, or, where there is
  -- none, a cached buffer or the old block.
  abbrev pub Source : Work D → ℕ → Bytes → ℕ → Type 0
  Source w0 j content data_len =
      ((p : ℕ) × (find_buf_in_dirty_list w0.bufs.buf j dirty ≡ some p)
        × (content ≡ (w0.bufs.buf p).content)
        × (data_len ≡ (w0.bufs.buf p).data_len))
      ⊎ ((find_buf_in_dirty_list w0.bufs.buf j dirty ≡ none)
          × (((p : ℕ) × Member p w0.bufs.list
                × (matches o.parent o.serial j (w0.bufs.buf p) ≡ true)
                × (content ≡ (w0.bufs.buf p).content)
                × (data_len ≡ (w0.bufs.buf p).data_len))
              ⊎ ((page : ℕ) × (c : Bytes) × (page < pages)
                  × (tag_is_good (get_tag w0.old page) ≡ true)
                  × ((get_tag w0.old page).page_id ≡ j)
                  × (content ≡ (calls.read_page w0.dev w0.old.block page c).1)
                  × (data_len ≡ clip w0.bufs.pg_data_size (get_tag w0.old page).data_len))))

  -- Page `j` of the new block is what it should be.
  abbrev pub Copied : Work D → D → ℕ → Type 0
  Copied w0 d j =
      (content : Bytes) × (data_len : ℕ) × Source w0 j content data_len
      × (held d w0.fresh.block j ≡ page_under o calls.pg_data_size j content data_len)

  -- A whole copy may end before page `i`: a truncated file ends there, or no page has the page id `i`.
  abbrev pub Finished : Work D → ℕ → Type 0
  Finished w0 i =
      ((p : ℕ) × (find_buf_in_dirty_list w0.bufs.buf i dirty ≡ some p)
        × (((w0.bufs.buf p).data_len == 0) || (w0.bufs.buf p).trunc_tail ≡ true))
      ⊎ ((find_buf_in_dirty_list w0.bufs.buf i dirty ≡ none)
          × ((j : ℕ)
              → i ≤ j
              → j < pages
              → tag_is_good (get_tag w0.old j) && ((get_tag w0.old j).page_id == i) ≡ false))

  -- A round for page `i`: the frame and the pages before it stay, and where the loop goes on, the page is
  -- copied.
  abbrev pub RoundDone : Work D → ℕ → D → Copying D → Type 0
  RoundDone w0 i d r =
      SameBufs w0.bufs r.work.bufs
      × SameBlocks w0 r.work
      × ((j : ℕ) → j ≢ i → held r.work.dev w0.fresh.block j ≡ held d w0.fresh.block j)
      × (r.ended ≡ none → is_good_write r.op ≡ true → Copied w0 r.work.dev i)
      × (r.ended ≡ some true → Finished w0 i)

  pub write_fresh-SameBlocks :
      (w0 w : Work D) (page p : ℕ) (tag : Tags)
      → IsFlash calls held
      → IsReady w0
      → SameBlocks w0 w
      → FitsTag tag
      → let (ret, w') = write_fresh calls w page p tag in
        SameBlocks w0 w'
        × ((j : ℕ) → j ≢ page → held w'.dev w0.fresh.block j ≡ held w.dev w0.fresh.block j)
        × (is_good_write ret ≡ true
            → held w'.dev w0.fresh.block page
              ≡ page_of calls.pg_data_size (w.bufs.buf p).content tag)
  unfolding write_fresh put_tag
  write_fresh-SameBlocks w0 w page p tag laws v f t =
      let r = calls.write_page w.dev w.fresh.block page (w.bufs.buf p) tag in
      (
        record {
          old = f.old;
          fresh = f.fresh;
          read = λ k c.
              laws.other_block w.dev w.fresh.block page (w.bufs.buf p) tag w0.old.block k c
                (λ e. v.apart (e ∙ f.fresh))
              ∙ f.read k c;
        },
        (λ j ne.
            ap (λ b. held (r.2) b j) (sym f.fresh)
            ∙ laws.other_page w.dev w.fresh.block page (w.bufs.buf p) tag j ne
            ∙ ap (λ b. held w.dev b j) f.fresh),
        (λ good.
            ap (λ b. held (r.2) b page) (sym f.fresh)
            ∙ laws.written w.dev w.fresh.block page (w.bufs.buf p) tag t good),
      )
