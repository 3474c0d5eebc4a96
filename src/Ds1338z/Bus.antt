-- ===== src/Ds1338z/Bus.antt =====
-- The clock chip of application/libhw/ds1338z.c behind its bus: the time and the memory that are written
-- are read back. The chip is a slave of 64 registers.
use or1k_spartan6_platform_x.Base.{
  ℕ, ◌+◌, ◌<◌, ◌≤◌, ◌≡◌, inl, refl, ap, ◌∙◌, arith, some, List, [], ◌∷◌, length, u8, AllBytes,
}
use or1k_spartan6_platform_x.Base.Memory.{
  Memory, read_block, write_block, read_block-write_block, write_block_outside,
}
use or1k_spartan6_platform_x.I2c.{Commands, rsp_done, i2c_read_bus_mul, i2c_write_bus_mul}
use or1k_spartan6_platform_x.I2c.Slave.{
  Slave, HasSlave, Rests, i2c_write_bus_mul-write_block, i2c_read_bus_mul-read_block,
}
use or1k_spartan6_platform_x.Ds1338z.{
  ClockData, ok, err_of, i2c_addr, unix_millennium, encode, decode, clock_data_of, init,
  get_raw_clock_data, get_unix_time, set_raw_clock_data, set_unix_time, read_nvram, write_nvram,
}
use or1k_spartan6_platform_x.Bcd.{u8_dec2bcd}
use or1k_spartan6_platform_x.Ds1338z.Conversion.{end_of_time, unix_time_of-clock_data_of}

abbrev pub registers : ℕ
registers = 64

encode-AllBytes : (c : ClockData) → AllBytes (encode c)
unfolding encode u8_dec2bcd
encode-AllBytes c = omega arith

module _ {S : Type 0} (cmds : Commands S) (At : S → Slave → Type 0)
    (law : HasSlave cmds i2c_addr registers At) where
  -- The time that is set is the time that is read, from 2000 on and where 32 bits are enough, with a
  -- day of the week of at most two digits, a buffer of seven bytes, and a chip that keeps its
  -- registers in between.
  pub get_unix_time-set_unix_time :
      (raw : ClockData) (tm : ℕ) (buffer : List ℕ) (s : S) (r : Memory)
      → Rests At s r
      → unix_millennium ≤ tm
      → tm < end_of_time
      → raw.dow < 100
      → length buffer ≡ 7
      → (t : S) × (u : S) × (set_unix_time cmds raw tm s ≡ (ok, t))
        × (get_unix_time cmds buffer t ≡ ((ok, some tm), u))
  unfolding set_unix_time set_raw_clock_data get_unix_time get_raw_clock_data decode encode
  get_unix_time-set_unix_time raw tm buffer s r rests lo hi dow room =
      let bytes = encode (clock_data_of raw tm) in
      let (t, wrote, stored) =
        i2c_write_bus_mul-write_block cmds i2c_addr registers At law 0 bytes s r rests (omega arith)
          (omega arith) (encode-AllBytes (clock_data_of raw tm)) in
      let (u, read, kept) =
        i2c_read_bus_mul-read_block cmds i2c_addr registers At law 0 7 buffer t
          (write_block r 0 bytes) stored room (omega arith) (omega arith) in
      let same : read_block (write_block r 0 bytes) 0 7 ≡ bytes =
        read_block-write_block r 0 bytes in
      (t, u, rw (wrote) refl, rw (read, same, unix_time_of-clock_data_of raw tm lo hi dow) refl)

  write_nvram-ok :
      (offset : ℕ) (src : List ℕ) (s t : S)
      → 8 + offset < 256
      → i2c_write_bus_mul cmds i2c_addr (8 + offset) src s ≡ (rsp_done, t)
      → write_nvram cmds offset src s ≡ (ok, t)
  unfolding write_nvram
  write_nvram-ok offset src s t small run =
      let a : u8 (8 + offset) ≡ 8 + offset = omega arith in rw (a, run) refl

  read_nvram-ok :
      (offset n : ℕ) (dest got : List ℕ) (s t : S)
      → 8 + offset < 256
      → i2c_read_bus_mul cmds i2c_addr (8 + offset) dest n s ≡ (rsp_done, got, t)
      → read_nvram cmds dest offset n s ≡ (ok, got, t)
  unfolding read_nvram
  read_nvram-ok offset n dest got s t small run =
      let a : u8 (8 + offset) ≡ 8 + offset = omega arith in rw (a, run) refl

  -- A block of bytes that is written to the memory lies in the registers behind the clock's, and
  -- the others stay.
  pub write_nvram-block :
      (offset : ℕ) (src : List ℕ) (s : S) (r : Memory)
      → Rests At s r
      → 0 < length src
      → 8 + offset + length src ≤ 64
      → AllBytes src
      → (t : S) × (write_nvram cmds offset src s ≡ (ok, t))
        × Rests At t (write_block r (8 + offset) src)
  write_nvram-block offset src s r rests pos fits bytes =
      let (t, wrote, stored) =
        i2c_write_bus_mul-write_block cmds i2c_addr registers At law (8 + offset) src s r rests
          (omega arith) fits bytes in
      (t, write_nvram-ok offset src s t (omega arith) wrote, stored)

  pub read_nvram-block :
      (offset n : ℕ) (dest : List ℕ) (s : S) (r : Memory)
      → Rests At s r
      → 0 < n
      → 8 + offset + n ≤ 64
      → length dest ≡ n
      → (t : S) × (read_nvram cmds dest offset n s ≡ (ok, read_block r (8 + offset) n, t))
        × Rests At t r
  read_nvram-block offset n dest s r rests pos fits room =
      let (t, read, kept) =
        i2c_read_bus_mul-read_block cmds i2c_addr registers At law (8 + offset) n dest s r rests
          room pos fits in
      (t, read_nvram-ok offset n dest (read_block r (8 + offset) n) s t (omega arith) read, kept)

  -- The chip answers the probe of `ds1338z_init`, if it rests behind `i2c_init`.
  pub init-ok :
      (i2c_init : S → S) (b : ℕ) (s : S) (r : Memory)
      → Rests At (i2c_init s) r
      → (t : S) × (init cmds i2c_init b s ≡ (ok, t)) × Rests At t r
  unfolding init
  init-ok i2c_init b s r rests =
      let (t, read, kept) =
        i2c_read_bus_mul-read_block cmds i2c_addr registers At law 0 1 (b ∷ []) (i2c_init s) r rests
          refl (omega arith) (omega arith) in
      (t, ap (λ q. (err_of q.0, q.2)) read, kept)

  -- Bytes that are written to the battery-backed memory are read back, and the chip's first eight
  -- registers, the clock among them, stay: the block is not empty and lies in the memory, and the
  -- buffer has its size.
  pub read_nvram-write_nvram :
      (offset : ℕ) (src dest : List ℕ) (s : S) (r : Memory)
      → Rests At s r
      → 0 < length src
      → 8 + offset + length src ≤ 64
      → AllBytes src
      → length dest ≡ length src
      → (t : S) × (u : S) × (k : Memory) × (write_nvram cmds offset src s ≡ (ok, t))
        × (read_nvram cmds dest offset (length src) t ≡ (ok, src, u))
        × Rests At u k
        × ((i : ℕ) → i < 8 → k i ≡ r i)
  read_nvram-write_nvram offset src dest s r rests pos fits bytes room =
      let (t, wrote, stored) = write_nvram-block offset src s r rests pos fits bytes in
      let k = write_block r (8 + offset) src in
      let (u, read, kept) = read_nvram-block offset (length src) dest t k stored pos fits room in
      (
        t,
        u,
        k,
        wrote,
        read ∙ ap (λ l. (ok, l, u)) (read_block-write_block r (8 + offset) src),
        kept,
        λ i lt. write_block_outside r (8 + offset) src i (inl (omega arith)),
      )
