-- ===== src/Cdev/Tests.antt =====
-- A file with two answers, the first of which is half read.
use vfi.Prelude.{ℕ, ◌+◌, ◌≡◌, refl, arith, true, List, [], ◌∷◌, ◌++◌, map, some, length, bytes}
use vfi.Cdev.File.{
  Mybuf, Priv, chunk, out_of_fuel, read, serve, current, queue_to_read, cur, llseek, opened,
  release, readable,
}
use vfi.Ops.Model.{pos, negsuc}
use vfi.Cdev.Pending.{pending, text, texts, IsValid, Delivers}
use vfi.Cdev.Stream.{read-Delivers, read_spins}
use vfi.Cdev.Seek.{Reach, fresh, next, answered, llseek_rereads}
use vfi.Cdev.Lines.{write, join, write_answers}

abbrev reply : List ℕ → Mybuf
reply s = record { size = length s; reply = s }

abbrev half_read : Priv
half_read = record {
  readlist = reply (bytes "second\n") ∷ [];
  seeklist = [];
  seekbufs = 0;
  pos = pos 3;
  is_open = true;
  mybuf = some (reply (bytes "first\n"));
  offset = 3;
  size = 6;
}

half_read-IsValid : IsValid half_read
half_read-IsValid = record {
  waiting = (omega arith, tt);
  reading = (refl, omega arith, omega arith);
}

short_read :
    read 5 2 (λ k. 0) 3 half_read
    ≡ chunk (bytes "st") (record half_read { offset = 5; pos = pos 5 })
unfolding read current serve
short_read = refl

read-Delivers_example : Delivers 100 half_read (read 5 100 (λ k. 0) 3 half_read)
read-Delivers_example =
    read-Delivers 5 100 3 half_read (omega arith) half_read-IsValid (omega arith)

read_spins_example : read 1000 0 (λ k. 0) 3 half_read ≡ out_of_fuel
read_spins_example = read_spins 1000 3 (reply (bytes "first\n")) half_read refl (omega arith)

llseek_rereads_example :
    pending (llseek cur 6 (serve 6 0 (reply (bytes "first\n")) half_read).1)
    ≡ text (reply (bytes "first\n")) ++ pending (serve 6 0 (reply (bytes "first\n")) half_read).1
llseek_rereads_example =
    llseek_rereads 6 5 (reply (bytes "first\n")) half_read (refl, omega arith) refl (omega arith)

sought_below_zero :
    llseek cur 6
      (record half_read { pos = pos 2; seeklist = reply (bytes "old\n") ∷ []; seekbufs = 1 })
    ≡ record half_read {
      pos = negsuc 3;
      readlist = reply (bytes "old\n") ∷ reply (bytes "second\n") ∷ [];
    }
unfolding llseek
sought_below_zero = refl

one_answer : Reach (queue_to_read opened (reply (bytes "ok\n")))
one_answer = next fresh (answered opened (reply (bytes "ok\n")))

closed_drops : queue_to_read (release opened) (reply (bytes "late\n")) ≡ release opened
unfolding queue_to_read release
closed_drops = refl

ready : readable half_read ≡ true
unfolding readable
ready = refl

abbrev two_lines : List (List ℕ)
two_lines = bytes "smb_find://a.b" ∷ bytes "smb_put://a.b" ∷ []

write_answers_example :
    let (end, q) = write 9 reply (join (bytes "event_find://e" ∷ two_lines)) (3, half_read) in
    (pending q ≡ pending half_read ++ texts (map reply (bytes "event_find://e" ∷ two_lines)))
    × (end ≡ 3 + length (join (bytes "event_find://e" ∷ two_lines)))
write_answers_example =
    write_answers 9 reply (bytes "event_find://e") two_lines 3 half_read refl (omega arith) refl
