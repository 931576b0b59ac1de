-- ===== src/Local/Tests.antt =====
-- A board with one smb of three pages, the first two of them adjacent in memory, and chained events.
use vfi.Prelude.{
  total, ℕ, zero, suc, ◌+◌, ◌%◌, ◌^◌, ◌<◌, ◌≡◌, refl, arith, Bool, true, false, List, [], ◌∷◌, ◌++◌,
  Option, none, some, bytes, length, ap, ◌==◌, if◌then◌else◌,
}
use vfi.Ops.Model.{ℤ, pos, negsuc, a_smb, a_bind, a_dsts, a_xfer, Object, Desc, BindDesc, Lookup}
use vfi.Parse.Desc.{get_option}
use vfi.Parse.Tests.{hex, strtoul}
use vfi.Bind.Delete.{Tiles, tiles_end, in_range}
use vfi.Local.Split.{
  desc_valid, Fragment, split, split_dst, split_src, num_dma, start_page, end_page, start_offset,
  start_size, end_size,
}
use vfi.Local.Transfer.{copies, pairs, bind_copies}
use vfi.Local.Stops.{always, up_to_failure, first_failure, split_ends_stop}
use vfi.Local.Bytes
use vfi.Local.Bytes.{named}
use vfi.Local.Asked.{fragments, dsts_create-covers}
use vfi.Local.Model.{Site}
use vfi.Local.Creates.{Buffer, sized, smb_size}
use vfi.Local.Ends
use vfi.Local.Ends.{local_bind_create, local_dsts_create, bind_place}
use vfi.Local.Deletes.{local_bind_delete}
use vfi.Local.Balance.{gain, loss, held}
use vfi.Local.BindBalance.{bind_create-delete}
use vfi.Local.Tiling.{place_binds, place_binds-Tiles}
use vfi.Local.Sizes.{smb_size-address}
use vfi.Local.Events.{Lists, local_event_start, local_event_chain}
use vfi.Local.Chains.{event_chain-start, event_chain_endless}

abbrev frames : ℕ → ℕ
frames zero = 5
frames (suc zero) = 6
frames _ = 9

frames_low : (q : ℕ) → frames q < 2 ^ 20
frames_low zero = omega arith
frames_low (suc zero) = omega arith
frames_low (suc (suc q)) = omega arith

abbrev fragment_at : ℕ → ℕ → ℕ → Fragment
fragment_at a n p = record { address = a; extent = n; peer = p }

-- 6000 bytes from the offset 4000 lie on three pages, of which the first two are adjacent.
three_pages :
    split_dst frames always 0 4000 6000 100
    ≡ (fragment_at 24480 4192 100 ∷ fragment_at 36864 1808 4292 ∷ [], none)
unfolding split_dst split num_dma start_page end_page start_offset start_size end_size
three_pages = refl

-- The second call fails.
abbrev second_fails : Fragment → Bool × ℤ
second_fails f = (f.peer == 0, if f.peer == 0 then pos 0 else negsuc 11)

stopped :
    split_dst frames second_fails 0 4000 6000 0
    ≡ (fragment_at 24480 4192 0 ∷ fragment_at 36864 1808 4192 ∷ [], some (negsuc 11))
unfolding split_dst split num_dma start_page end_page start_offset start_size end_size
stopped = refl

split_ends_stop_example :
    let dsts = (split_dst frames always 0 4000 6000 0).0 in
    let srcs = (split_src frames always 0 4000 6000 0).0 in
    (split_dst frames second_fails 0 4000 6000 0
      ≡ (up_to_failure second_fails dsts, first_failure second_fails dsts))
    × (split_src frames second_fails 0 4000 6000 0
        ≡ (up_to_failure second_fails srcs, first_failure second_fails srcs))
split_ends_stop_example = split_ends_stop frames second_fails 0 4000 6000 0

bind_copies_example :
    copies frames always 8 (split_dst frames always 0 4000 6000 100).0
    ≡ pairs frames frames 108 4000 6000
bind_copies_example =
    bind_copies frames frames always always 8 100 0 4000 6000 (λ f. refl) (λ f. refl) frames_low
      (omega arith) (omega arith) (omega arith) (omega arith)

abbrev part : ℕ → ℕ → Desc
part offset extent = record {
  name = bytes "buf";
  location = some (bytes "here");
  offset = offset;
  extent = extent;
  query = bytes "event_name=go" ∷ bytes "map_address=1064" ∷ [];
  ops = none;
}

abbrev bound : BindDesc
bound = record { xfer = part 0 6000; dst = part 4000 6000; src = part 100 6000 }

abbrev smb : Object
smb = record { kind = a_smb; address = 4096 }

abbrev bind : Object
bind = record { kind = a_bind; address = 8192 }

abbrev xfer : Object
xfer = record { kind = a_xfer; address = 12288 }

abbrev hit : Object → Lookup
hit o = record { ret = pos 0; obj = some o }

abbrev site : Site
site = record {
  strtoul = strtoul;
  hex = hex;
  kzalloc = true;
  kset_find_obj = λ o k s. none;
  has_set = λ o k. true;
  find_vfi_name = λ o d. record { ret = negsuc 21; obj = none };
  find_vfi_smb = λ d. hit smb;
  find_vfi_mmap_in = λ o d. record { ret = pos 1; obj = none };
  find_vfi_dst_in = λ o d. record { ret = pos 1; obj = none };
  find_vfi_events = λ s. true;
  vfi_events_create = λ s. pos 0;
  vfi_event_create = λ o s. pos 0;
  create_location = λ o d. hit xfer;
  create = λ k o d. hit (record { kind = k; address = 16384 });
  create_bind = λ k o d. hit (record { kind = k; address = 8192 });
  desc = λ o. part 0 12288;
  bind_desc = λ o. bound;
  has_address = λ o. false;
  has_event = λ o s. false;
  frames = λ o. some frames;
  children = λ o. bind ∷ [];
  set_of = λ o. none;
  vfi_dst_parent = λ o. bind;
  member = λ op o d. hit o;
  create_part = λ op o d. hit o;
  part_events = λ o d. pos 0;
}

-- Every reference counts.
abbrev one : Object → ℕ
one o = 1

bind_create-delete_example :
    let placed = record bound { xfer = (bind_place (site.desc xfer) bound.xfer).1 } in
    let create = (local_bind_create site xfer bound).log in
    let delete = (local_bind_delete site xfer (part 0 6000)).log in
    total (gain one) create + total (gain one) delete
    ≡ total (loss one) create
      + total (loss one) delete
      + held one (Ends.hit (site.create_bind a_dsts bind placed))
unfolding in_range local_bind_create desc_valid bind_place
bind_create-delete_example =
    bind_create-delete one site site xfer bind bound (part 0 6000) refl refl refl refl refl

place_binds-Tiles_example :
    let (full, parts) = place_binds (part 0 0) (part 0 4096 ∷ part 0 512 ∷ []) in
    Tiles 0 parts × (tiles_end 0 parts ≡ full.extent)
place_binds-Tiles_example =
    place_binds-Tiles (part 0 0) (part 0 4096 ∷ part 0 512 ∷ [])
      (refl, (λ e. omega arith), (refl, (λ e. omega arith), tt)) (omega arith)

-- 512 bytes of the user's memory from the address 1064, in hexadecimal.
smb_size-address_example :
    (buf : Buffer) × (smb_size site (part 0 512) ≡ sized buf)
    × (buf.address + buf.offset ≡ (strtoul (bytes "1064")).0 + 0)
    × (buf.address % 4096 ≡ 0)
    × (buf.extent ≡ 512 + (strtoul (bytes "1064")).0 % 4096)
unfolding get_option
smb_size-address_example =
    smb_size-address site (part 0 512) (bytes "1064") refl (λ e. omega arith) (omega arith)
      (omega arith)

-- The lists go and stop, apart from each other.
abbrev next : List ℕ → Option (List ℕ)
next n = none

abbrev lists : Lists
lists = record { exists = λ n. true; next = next; prev = next; refs = λ n. 1; started = [] }

abbrev chain : List ℕ → Desc
chain name = record (part 0 0) { name = name }

event_chain-start_example :
    ((local_event_chain lists (chain (bytes "buf"))).0 ≡ pos 0)
    × ((r : Lists) × (local_event_start 2
            (local_event_chain lists (chain (bytes "buf"))).1
            (chain (bytes "buf"))
          ≡ some (pos 0, r))
        × (r.started ≡ [] ++ bytes "buf" ∷ bytes "go" ∷ []))
unfolding get_option
event_chain-start_example =
    event_chain-start 2 lists (chain (bytes "buf")) (bytes "go") [] refl refl refl
      ((λ e. omega (arith, ap length e)), tt) refl (omega arith)

event_chain_endless_example :
    ((local_event_chain lists (chain (bytes "go"))).0 ≡ pos 0)
    × (local_event_start 100 (local_event_chain lists (chain (bytes "go"))).1 (chain (bytes "go"))
        ≡ none)
unfolding get_option
event_chain_endless_example = event_chain_endless 100 lists (chain (bytes "go")) refl refl

dsts_create-covers_example :
    named (fragments (local_dsts_create site bind bound).log) ≡ Bytes.bytes frames 4000 100 6000
unfolding local_dsts_create split_dst split desc_valid num_dma start_page end_page start_offset
    start_size end_size
dsts_create-covers_example =
    dsts_create-covers site bind bound smb frames refl refl refl (omega arith) (omega arith)
      (omega arith) (omega arith)
