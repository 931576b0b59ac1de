-- ===== src/Cdev/Stream.antt =====
-- Reading in pieces gives the answers one after the other, without loss.
use vfi.Prelude.{
  ℕ, zero, suc, ◌+◌, ◌<◌, ◌≡◌, refl, sym, ap, ◌∙◌, arith, Bool, true, false, ◌++◌, Option, none,
  some, if◌then◌else◌, ◌==◌, ==_iff, take, drop,
}
use vfi.Cdev.File.{Mybuf, Priv, chunk, nothing, out_of_fuel, current, serve, moved, read}
use vfi.Cdev.Pending.{
  pending, IsValid, answers, Delivers, Chosen, current-pending, Passes, serve-Passes,
  Delivers-pending,
}

-- The loop of `vfi_read` with room for at least one byte, if `copy_to_user` copies all that it is asked
-- to, on a file whose answers are as the driver keeps them (`IsValid`): however much is pending it ends,
-- with a number of rounds above that of the answers still to come. It gives a front of what is pending,
-- not empty and no longer than the room, and leaves the rest pending; or it finds nothing, which is only
-- so when nothing is pending, and then the driver waits for an answer or gives -EAGAIN.
pub read-Delivers :
    (fuel count at : ℕ) (p : Priv)
    → 0 < count
    → IsValid p
    → answers p < fuel
    → Delivers count p (read fuel count (λ k. 0) at p)
unfolding read
read-Delivers zero count at p pos v h = absurd (omega arith)
read-Delivers (suc fuel) count at p pos v h =
    by_current (current p) (current-pending p v) (λ r. read-Delivers fuel count at r pos)
  where
    by_count :
        (b : Mybuf) (q : Priv) (nr : ℕ × Priv) (zero_bytes : Bool)
        → (nr.0 == 0) ≡ zero_bytes
        → pending q ≡ pending p
        → answers q ≡ answers p
        → Passes count b q nr
        → ((r : Priv)
            → IsValid r
            → answers r < fuel
            → Delivers count r (read fuel count (λ k. 0) at r))
        → Delivers count p (
            if zero_bytes
            then read fuel count (λ k. 0) at nr.1
            else chunk (take nr.0 (drop q.offset b.reply)) (moved (at + nr.0) nr.1))
    by_count b q (n, r) true z same many (front, long, room, valid, less) ih =
        let none_read : n ≡ 0 = (==_iff _ _).0 z in
        Delivers-pending count p r _
          (sym same ∙ front ∙ ap (λ k. take k (drop q.offset b.reply) ++ pending r) none_read)
          (ih r valid (omega (arith, less none_read)))
    by_count b q (n, r) false z same many (front, long, room, valid, less) ih = (
      sym same ∙ front,
      ground (arith, z, long),
      omega (arith, long),
      ground (arith, valid.waiting, valid.reading),
    )

    by_current :
        (c : Option (Mybuf × Priv))
        → Chosen p c
        → ((r : Priv)
            → IsValid r
            → answers r < fuel
            → Delivers count r (read fuel count (λ k. 0) at r))
        → Delivers count p (elim c [
          | none ↦ nothing p
          | some (b, q) ↦
              let (n, r) = serve count 0 b q in
              if n == 0
              then read fuel count (λ k. 0) at r
              else chunk (take n (drop q.offset b.reply)) (moved (at + n) r)
        ])
    by_current none e ih = (e, v)
    by_current (some (b, q)) (same, valid, here, many) ih =
        by_count b q (serve count 0 b q) _ refl same many (serve-Passes count b q pos valid here) ih

-- With room for no bytes, the loop of `vfi_read` never ends once an answer is being read that is not at
-- its end: no number of rounds is enough.
pub read_spins :
    (fuel at : ℕ) (b : Mybuf) (p : Priv)
    → p.mybuf ≡ some b
    → p.offset < p.size
    → read fuel 0 (λ k. 0) at p ≡ out_of_fuel
unfolding read current serve
read_spins zero at b p here more = refl
read_spins (suc fuel) at b p here more =
    ground
      (arith, here, read_spins fuel at b (record p { offset = p.offset + 0 }) here (omega arith))
