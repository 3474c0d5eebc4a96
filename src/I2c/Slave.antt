-- ===== src/I2c/Slave.antt =====
-- The transactions of application/libhw/i2c.c against a slave with registers, such as the clock chip:
-- it takes the first byte that is written as the number of a register, and goes on to the next
-- register behind each byte that is written or read.
use or1k_spartan6_platform_x.Base.{
  ℕ, zero, suc, ◌+◌, ◌-◌, ◌<◌, ◌≤◌, ◌≡◌, refl, ap, sym, ◌∙◌, arith, Option, some, List, [], ◌∷◌,
  ◌++◌, length, length-append, append_assoc, set, AllBytes,
}
use or1k_spartan6_platform_x.Base.Memory.{Memory, read_block, write_block, update}
use or1k_spartan6_platform_x.I2c.{
  Rsp, rsp_done, Commands, go, and_then, on_read, finish, address, select, read_to, read_loop,
  write_loop, i2c_read_bus_mul, i2c_write_bus_mul,
}

-- What the slave expects: nothing, its address, a register's number, data, or to be read.
pub data Phase : Type 0 where
  unaddressed addressing selecting writing reading : Phase

pub record Slave : Type 0 where
  pub phase : Phase
  pub pointer : ℕ
  pub regs : Memory

abbrev pub slave : Phase → ℕ → Memory → Slave
slave f p r = record { phase = f; pointer = p; regs = r }

-- A slave that does not hold the data line, so that a transaction can begin, begin again or end.
abbrev pub IsFree : Phase → Type 0
IsFree addressing = ⊥
IsFree reading = ⊥
IsFree unaddressed = Unit
IsFree selecting = Unit
IsFree writing = Unit

-- What the commands promise of a slave with the bus address `sa`, as long as they write bytes and stay
-- below its register `size`. `At s v` says that the state `s` has the slave in the state `v`.
pub record HasSlave {S : Type 0} (cmds : Commands S) (sa size : ℕ) (At : S → Slave → Type 0)
    : Type 0 where
  pub starts :
      (f : Phase) (p : ℕ) (r : Memory) (s : S)
      → IsFree f
      → At s (slave f p r)
      → (t : S) × (cmds.start s ≡ (rsp_done, t)) × At t (slave addressing p r)
  pub stops :
      (f : Phase) (p : ℕ) (r : Memory) (s : S)
      → IsFree f
      → At s (slave f p r)
      → At (cmds.stop s).1 (slave unaddressed p r)
  pub addresses_write :
      (p : ℕ) (r : Memory) (s : S)
      → At s (slave addressing p r)
      → (t : S) × (cmds.write (address cmds sa 0) s ≡ (rsp_done, t)) × At t (slave selecting p r)
  pub addresses_read :
      (p : ℕ) (r : Memory) (s : S)
      → At s (slave addressing p r)
      → (t : S) × (cmds.write (address cmds sa 1) s ≡ (rsp_done, t)) × At t (slave reading p r)
  pub selects :
      (p b : ℕ) (r : Memory) (s : S)
      → At s (slave selecting p r)
      → b < size
      → (t : S) × (cmds.write b s ≡ (rsp_done, t)) × At t (slave writing b r)
  pub stores :
      (p b : ℕ) (r : Memory) (s : S)
      → At s (slave writing p r)
      → p < size
      → b < 256
      → (t : S) × (cmds.write b s ≡ (rsp_done, t)) × At t (slave writing (suc p) (update r p b))
  pub fetches_ack :
      (p : ℕ) (r : Memory) (s : S)
      → At s (slave reading p r)
      → p < size
      → (t : S) × (cmds.read_ack s ≡ (rsp_done, some (r p), t)) × At t (slave reading (suc p) r)
  pub fetches_nak :
      (p : ℕ) (r : Memory) (s : S)
      → At s (slave reading p r)
      → p < size
      → (t : S) × (cmds.read_nak s ≡ (rsp_done, some (r p), t)) × At t (slave unaddressed (suc p) r)

-- Between two transactions, with these registers.
abbrev pub Rests : {S : Type 0} → (S → Slave → Type 0) → S → Memory → Type 0
Rests At s r = (p : ℕ) × At s (slave unaddressed p r)

module _ {S : Type 0} (cmds : Commands S) (sa size : ℕ) (At : S → Slave → Type 0)
    (law : HasSlave cmds sa size At) where
  write_loop-stored :
      (bs d : List ℕ) (s : S) (p : ℕ) (r : Memory)
      → At s (slave writing p r)
      → p + length bs ≤ size
      → AllBytes bs
      → (t : S) × (q : ℕ) × (write_loop cmds bs (record { dev = s; d = d })
          ≡ go (record { dev = t; d = d }))
        × At t (slave writing q (write_block r p bs))
  unfolding write_loop write_block
  write_loop-stored [] d s p r at fits bytes = (s, p, refl, at)
  write_loop-stored (b ∷ bs) d s p r at fits bytes =
      let (t, run, now) = law.stores p b r s at (omega arith) bytes.0 in
      let (u, q, rest, done) =
        write_loop-stored bs d t (suc p) (update r p b) now (omega arith) bytes.1 in
      (u, q, rw (run) rest, done)

  -- Bytes that are written from a register on are in the registers from it on, in order, and the
  -- other registers stay, if all of them are below the slave's size.
  pub i2c_write_bus_mul-write_block :
      (a : ℕ) (bs : List ℕ) (s : S) (r : Memory)
      → Rests At s r
      → a < size
      → a + length bs ≤ size
      → AllBytes bs
      → (t : S) × (i2c_write_bus_mul cmds sa a bs s ≡ (rsp_done, t))
        × Rests At t (write_block r a bs)
  unfolding i2c_write_bus_mul finish
  i2c_write_bus_mul-write_block a bs s r (p, at) below fits bytes =
      let (s1, run1, at1) = law.starts unaddressed p r s tt at in
      let (s2, run2, at2) = law.addresses_write p r s1 at1 in
      let (s3, run3, at3) = law.selects p a r s2 at2 below in
      let (s4, q, run4, at4) = write_loop-stored bs [] s3 a r at3 fits bytes in
      (
        (cmds.stop s4).1,
        rw (run1, run2, run3, run4) refl,
        (q, law.stops writing q (write_block r a bs) s4 tt at4),
      )

  set-append :
      (pre old : List ℕ) (o v : ℕ) → set (pre ++ (o ∷ old)) (length pre) v ≡ pre ++ (v ∷ old)
  set-append [] old o v = refl
  set-append (x ∷ pre) old o v = ap (λ l. x ∷ l) (set-append pre old o v)

  -- A read command that brings a byte puts it into the buffer.
  read_to-fetched :
      (read : S → Rsp × Option ℕ × S) (pre old : List ℕ) (o v : ℕ) (s t : S)
      → read s ≡ (rsp_done, some v, t)
      → read_to read (length pre) (record { dev = s; d = pre ++ (o ∷ old) })
        ≡ go (record { dev = t; d = pre ++ (v ∷ old) })
  read_to-fetched read pre old o v s t run =
      ap (λ q. on_read (record { dev = s; d = pre ++ (o ∷ old) }) (length pre) q) run
      ∙ ap (λ l. go (record { dev = t; d = l })) (set-append pre old o v)

  read_loop-fetched :
      (left : ℕ) (pre old : List ℕ) (s : S) (p : ℕ) (r : Memory)
      → length old ≡ suc left
      → At s (slave reading p r)
      → p + suc left ≤ size
      → (t : S) × (q : ℕ) × (read_loop cmds left (length pre) (record { dev = s; d = pre ++ old })
          ≡ go (record { dev = t; d = pre ++ read_block r p (suc left) }))
        × At t (slave unaddressed q r)
  unfolding read_loop read_block
  read_loop-fetched left pre [] s p r n at fits = absurd (omega arith)
  read_loop-fetched zero pre (o ∷ []) s p r n at fits =
      let (t, run, now) = law.fetches_nak p r s at (omega arith) in
      (t, suc p, read_to-fetched cmds.read_nak pre [] o (r p) s t run, now)
  read_loop-fetched zero pre (o ∷ o' ∷ old) s p r n at fits = absurd (omega arith)
  read_loop-fetched (suc left) pre (o ∷ old) s p r n at fits =
      let (t, run, now) = law.fetches_ack p r s at (omega arith) in
      let longer = length-append pre (r p ∷ []) in
      let (u, q, rest, done) =
        read_loop-fetched left (pre ++ (r p ∷ [])) old t (suc p) r (omega arith) now
          (omega arith) in
      let front = append_assoc pre (r p ∷ []) in
      (
        u,
        q,
        ap (λ f. and_then f (read_loop cmds left (length pre + 1)))
              (read_to-fetched cmds.read_ack pre old o (r p) s t run)
            ∙ ap (λ i. read_loop cmds left i (record { dev = t; d = pre ++ (r p ∷ old) }))
                (sym longer)
            ∙ ap (λ l. read_loop cmds left (length (pre ++ (r p ∷ []))) (record { dev = t; d = l }))
                (sym (front old))
            ∙ rest
            ∙ ap (λ l. go (record { dev = u; d = l })) (front (read_block r (suc p) (suc left))),
        done,
      )

  -- Bytes that are read from a register on are those of the registers from it on, in order, and all
  -- registers stay, if all of them are below the slave's size and the buffer has room for exactly these.
  pub i2c_read_bus_mul-read_block :
      (a n : ℕ) (d : List ℕ) (s : S) (r : Memory)
      → Rests At s r
      → length d ≡ n
      → 0 < n
      → a + n ≤ size
      → (t : S) × (i2c_read_bus_mul cmds sa a d n s ≡ (rsp_done, read_block r a n, t))
        × Rests At t r
  unfolding i2c_read_bus_mul finish select
  i2c_read_bus_mul-read_block a zero d s r rests room pos fits = absurd (omega arith)
  i2c_read_bus_mul-read_block a (suc n) d s r (p, at) room pos fits =
      let (s1, run1, at1) = law.starts unaddressed p r s tt at in
      let (s2, run2, at2) = law.addresses_write p r s1 at1 in
      let (s3, run3, at3) = law.selects p a r s2 at2 (omega arith) in
      let (s4, run4, at4) = law.starts writing a r s3 tt at3 in
      let (s5, run5, at5) = law.addresses_read a r s4 at4 in
      let (s6, q, run6, at6) = read_loop-fetched n [] d s5 a r room at5 fits in
      let less : suc n - 1 ≡ n = omega arith in
      (
        (cmds.stop s6).1,
        rw (less, run1, run2, run3, run4, run5, run6) refl,
        (q, law.stops unaddressed q r s6 tt at6),
      )
