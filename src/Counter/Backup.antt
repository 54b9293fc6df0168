-- ===== src/Counter/Backup.antt =====
-- The two backups of the cache alternate.
use ravens.Base.{ℕ, ◌+◌, ◌-◌, ◌/◌, ◌%◌, ◌≡◌, ◌<◌, refl, ap, none, arith, ◌==◌, if◌then◌else◌}
use ravens.Base.Memory.{Bytes, shift, blit, fill}
use ravens.Counter.{saved_to, backup_cache, restore_cache}
use ravens.Device.{Device, ok}
use ravens.Device.Ends.{erase-powered, write-powered}
use ravens.Platform.{Platform, IsFlash, IsLayout}

module _ {p : Platform} (flash : IsFlash p) (layout : IsLayout p) where
  -- The flash after a backup of a cache.
  abbrev pub saved : ℕ → Bytes → Bytes → Bytes
  saved counter nand cache =
      blit (fill nand (saved_to p counter) 4096 0xff) (saved_to p counter) 4096 cache

  saved_to_aligned : (counter : ℕ) → saved_to p counter % 4096 ≡ 0
  saved_to_aligned counter = ground (arith, layout.backup1_aligned, layout.backup2_aligned)

  pub backup_cache-saved :
      (counter : ℕ) (d : Device)
      → d.power ≡ none
      → backup_cache p counter d ≡ ok tt (record d { nand = saved counter d.nand d.cache_ram })
  unfolding backup_cache
  backup_cache-saved counter d on =
      let erased : Bytes = fill d.nand (saved_to p counter) 4096 0xff in
      ground (
        arith,
        erase-powered flash d (saved_to p counter) (saved_to_aligned counter) on,
        write-powered flash (record d { nand = erased }) (saved_to p counter) 4096 d.cache_ram
            (omega (arith, saved_to_aligned counter)) (λ i h. unfold fill in ground arith) on,
      )

  -- With power, from an even counter: ERASE counts to an odd number, backs the cache up, counts on, and erases. A restart with the
  -- even number restores the cache of that backup; one with the odd number restores what the page
  -- of the backup before held, which this one leaves alone.
  pub restore_cache-backup_cache :
      (counter : ℕ) (d : Device)
      → d.power ≡ none
      → counter % 2 ≡ 0
      → (e : Device) × (backup_cache p (counter + 1) d ≡ ok tt e)
        × ((junk : Bytes) (i : ℕ)
            → i < 4096
            → (f g : Device) × (restore_cache p (counter + 2) (record e { cache_ram = junk })
                ≡ ok tt f)
              × (f.cache_ram i ≡ d.cache_ram i)
              × (restore_cache p (counter + 1) (record e { cache_ram = junk }) ≡ ok tt g)
              × (g.cache_ram i ≡ d.nand (saved_to p (counter + 3) + i)))
  unfolding restore_cache
  restore_cache-backup_cache counter d on even = (
    _,
    backup_cache-saved (counter + 1) d on,
    λ junk i h. (_, _, refl, again junk i h, refl, before junk i h),
  )
    where
      the_byte : (page i : ℕ) → page + i - page ≡ i
      the_byte page i = omega arith

      again :
          (junk : Bytes) (i : ℕ)
          → i < 4096
          → blit junk 0 4096
              (shift
                (saved (counter + 1) d.nand d.cache_ram)
                (if (counter + 2) / 2 % 2 == 1 then p.backup_cache1 else p.backup_cache2))
              i
            ≡ d.cache_ram i
      again junk i h =
          unfold blit in
          ground (
            arith,
            ap d.cache_ram (the_byte p.backup_cache1 i),
            ap d.cache_ram (the_byte p.backup_cache2 i),
          )

      before :
          (junk : Bytes) (i : ℕ)
          → i < 4096
          → blit junk 0 4096
              (shift
                (saved (counter + 1) d.nand d.cache_ram)
                (if (counter + 1) / 2 % 2 == 1 then p.backup_cache1 else p.backup_cache2))
              i
            ≡ d.nand (saved_to p (counter + 3) + i)
      before junk i h = unfold blit fill in ground (arith, layout.backups)
