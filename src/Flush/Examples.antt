-- ===== src/Flush/Examples.antt =====
-- The copy of a block of three pages at a small flash.
use esp_uffs.Prelude.{
  ℕ, zero, suc, ◌+◌, ◌≤◌, ◌≡◌, refl, sym, ◌∙◌, [], ◌∷◌, Bool, true, false, none, ◌==◌, ◌&&◌,
  if◌then◌else◌, arith, length,
}
use esp_uffs.BadBlock.{no_err, bad_block_init}
use esp_uffs.BlockInfo.{Tags, erased_tag}
use esp_uffs.BlockInfo.Expired.{expired_pages}
use esp_uffs.Public.Spares.{spare_at}
use esp_uffs.Public.Again.{IsRead}
use esp_uffs.Buf.{valid, dirty}
use esp_uffs.Flush.{FlashCalls, Work, Owner, copy_loop}
use esp_uffs.Flush.Laws.{Page, page_of, IsFlash, IsReady}
use esp_uffs.Public.Spares.{is_free_spare}
use esp_uffs.Public.Free.{free_among}
use esp_uffs.Public.Erased.{is_erased_tag, tag_is_dirty}
use esp_uffs.TagStore.{tag_word0, of_list}
use esp_uffs.Pool.Chain.{Distinct}
use esp_uffs.DirtyBuf.{group_at, no_dirty}
use esp_uffs.DirtyBuf.Marks.{Owned, IsMarked}
use esp_uffs.Flush.{is_good_write}
use esp_uffs.Flush.Free.{flush_with_free_pages}
use esp_uffs.Flush.FreePages.{AllGood, CanFlush, FlushDone}
use esp_uffs.Flush.FreeFlush.{flush_with_free_pages-FlushDone}
use esp_uffs.Flush.Copy.{AllCopied, copy_loop-Copied}

abbrev Dev : Type 0
Dev = ℕ → ℕ → Page

abbrev write : Dev → ℕ → ℕ → Page → Dev
write d block page x = λ b p. if (b == block) && (p == page) then x else d b p

-- A flash whose calls never fail.
abbrev calls : FlashCalls Dev
calls = record {
  read_tag = λ d block page tag. (no_err, tag);
  read_page = λ d block page old. (no_err, of_list (d block page).content);
  write_page = λ d block page b tag. (no_err, tag, write d block page (page_of 508 b.content tag));
  file_name = λ content. [];
  pg_data_size = 508;
}

abbrev held : Dev → ℕ → ℕ → Page
held d = d

calls-IsFlash : IsFlash calls held
calls-IsFlash = record {
  written = λ d block page b tag fits good.
      let one : (block == block) ≡ true = ground arith in
      let two : (page == page) ≡ true = ground arith in rw (one, two) refl;
  other_page = λ d block page b tag k ne.
      let one : (block == block) ≡ true = ground arith in
      let two : (k == page) ≡ false = ground arith in rw (one, two) refl;
  other_block =
      λ d block page b tag k l old ne. let one : (k == block) ≡ false = ground arith in rw one refl;
}

abbrev tag_of : ℕ → Tags
tag_of n = record erased_tag {
  dirty = 0;
  valid = 0;
  block_ts = 1;
  parent = 3;
  serial = 7;
  kind = 2;
  page_id = n;
  data_len = 10;
  seal_byte = 0;
}

-- Pages 0 and 1 are written, page 2 is erased.
abbrev work : Work Dev
work = record {
  bufs = record {
    buf = λ p. record {
      kind = 2;
      trunc_tail = false;
      parent = 3;
      serial = 7;
      page_id = p;
      mark = (if p == 1 then dirty else valid);
      ref_count = 0;
      data_len = 20;
      content = λ k. k;
    };
    list = 1 ∷ [];
    clones = 5 ∷ [];
    groups = record { dirty = 1 ∷ []; count = 1; lock = 0 } ∷ [];
    dirty_buf_max = 4;
    pg_data_size = 508;
  };
  old = record {
    id = 1;
    block = 12;
    spares =
        record { tag = tag_of 0; expired = false }
        ∷ record { tag = tag_of 1; expired = false }
        ∷ record { tag = erased_tag; expired = false }
        ∷ [];
    expired_count = 0;
    ref_count = 1;
  };
  fresh = record {
    id = 2;
    block = 7;
    spares =
        record { tag = erased_tag; expired = false }
        ∷ record { tag = erased_tag; expired = false }
        ∷ record { tag = erased_tag; expired = false }
        ∷ [];
    expired_count = 0;
    ref_count = 1;
  };
  pending = bad_block_init;
  dev = λ block page. page_of 508 (λ k. k + block) (tag_of page);
}

abbrev owner : Owner
owner = record { kind = 2; parent = 3; serial = 7; time_stamp = 2 }

work-IsRead : IsRead 3 work.old
unfolding spare_at
work-IsRead zero h = refl
work-IsRead (suc zero) h = refl
work-IsRead (suc (suc zero)) h = refl
work-IsRead (suc (suc (suc j))) h = absurd (omega arith)

work-IsReady : IsReady calls held owner 3 (1 ∷ []) work
unfolding expired_pages
work-IsReady = record {
  info = record { all_pages = refl; counted = refl };
  all_read = work-IsRead;
  small = omega arith;
  apart = omega arith;
  few = λ q out. omega arith;
  fits = λ q out. omega arith;
  listed = λ q m. (omega arith, tt);
  dirty_listed = λ q m. (omega arith, tt);
}

copy_loop-Copied_example : AllCopied calls held owner 3 (1 ∷ []) work (
    copy_loop calls owner 3
      (1 ∷ [])
      3
      0
      (record { work = work; sum = 0; op = no_err; ended = none }))
copy_loop-Copied_example =
    copy_loop-Copied calls held owner 3 (1 ∷ []) work 0 calls-IsFlash work-IsReady

-- The group of the dirty buffer 1, which is written to page 2 of the old block.
abbrev never : Work Dev → Bool × Work Dev
never w = (false, w)

busy_slot : (i : ℕ) → no_dirty (group_at i work.bufs.groups).dirty ≡ false → i ≡ 0
unfolding group_at no_dirty
busy_slot zero h = refl
busy_slot (suc i) h = cc

work-Owned : (slot : ℕ) → Owned work.bufs.buf 3 7 (group_at slot work.bufs.groups).dirty
unfolding group_at
work-Owned zero = (refl, refl, refl, tt)
work-Owned (suc slot) = tt

work_counted :
    (slot : ℕ)
    → (group_at slot work.bufs.groups).count ≡ length (group_at slot work.bufs.groups).dirty
unfolding group_at
work_counted zero = refl
work_counted (suc slot) = refl

work-Distinct : (slot : ℕ) → Distinct (group_at slot work.bufs.groups).dirty
unfolding group_at
work-Distinct zero = (tt, tt)
work-Distinct (suc slot) = tt

work-IsMarked : IsMarked work.bufs (λ slot. 3) (λ slot. 7)
work-IsMarked = record {
  owned = work-Owned;
  counted = work_counted;
  distinct = work-Distinct;
  apart = λ i j a b e f. busy_slot i a ∙ sym (busy_slot j b);
}

work-CanFlush : CanFlush calls held never (λ slot. 3) (λ slot. 7) 3 0 work
work-CanFlush = record { marked = work-IsMarked; all_read = work-IsRead }

all_good : AllGood calls held never (λ slot. 3) (λ slot. 7) 3 0
all_good d block page b tag = unfold is_good_write in refl

enough_room : 1 ≤ free_among work.old 1 2
unfolding free_among spare_at is_free_spare is_erased_tag tag_is_dirty tag_word0
enough_room = omega arith

flush_with_free_pages-FlushDone_example :
    ((flush_with_free_pages calls never 3 0 work).0 ≡ true)
    × FlushDone calls held never
        (λ slot. 3)
        (λ slot. 7)
        3
        0
        work
        1
        (flush_with_free_pages calls never 3 0 work).1
flush_with_free_pages-FlushDone_example =
    flush_with_free_pages-FlushDone calls held never (λ slot. 3) (λ slot. 7) 3 0 work calls-IsFlash
      all_good work-CanFlush (omega arith) (omega arith) (unfold group_at in enough_room)
