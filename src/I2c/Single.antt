-- ===== src/I2c/Single.antt =====
-- `i2c_read_bus` and `i2c_write_bus` of application/libhw/i2c.c against the slave of I2c.Slave.
use or1k_spartan6_platform_x.Base.{ℕ, suc, ◌<◌, ◌≡◌, refl, ap, ◌∙◌, List, set}
use or1k_spartan6_platform_x.Base.Memory.{Memory, update, update_same}
use or1k_spartan6_platform_x.I2c.{
  rsp_done, Commands, finish, select, i2c_read_bus, i2c_write_bus, on_read,
}
use or1k_spartan6_platform_x.I2c.Slave.{Slave, unaddressed, writing, HasSlave, Rests}

module _ {S : Type 0} (cmds : Commands S) (sa size : ℕ) (At : S → Slave → Type 0)
    (law : HasSlave cmds sa size At) where
  pub i2c_write_bus-update :
      (a b : ℕ) (s : S) (r : Memory)
      → Rests At s r
      → a < size
      → b < 256
      → (t : S) × (i2c_write_bus cmds sa a b s ≡ (rsp_done, t)) × Rests At t (update r a b)
  unfolding i2c_write_bus finish
  i2c_write_bus-update a b s r (p, at) below byte =
      let (s1, run1, at1) = law.starts unaddressed p r s tt at in
      let (s2, run2, at2) = law.addresses_write p r s1 at1 in
      let (s3, run3, at3) = law.selects p a r s2 at2 below in
      let (s4, run4, at4) = law.stores a b r s3 at3 below byte in
      (
        (cmds.stop s4).1,
        rw (run1, run2, run3, run4) refl,
        (suc a, law.stops writing (suc a) (update r a b) s4 tt at4),
      )

  pub i2c_read_bus-set :
      (a : ℕ) (d : List ℕ) (s : S) (r : Memory)
      → Rests At s r
      → a < size
      → (t : S) × (i2c_read_bus cmds sa a d s ≡ (rsp_done, set d 0 (r a), t)) × Rests At t r
  unfolding i2c_read_bus finish select
  i2c_read_bus-set a d s r (p, at) below =
      let (s1, run1, at1) = law.starts unaddressed p r s tt at in
      let (s2, run2, at2) = law.addresses_write p r s1 at1 in
      let (s3, run3, at3) = law.selects p a r s2 at2 below in
      let (s4, run4, at4) = law.starts writing a r s3 tt at3 in
      let (s5, run5, at5) = law.addresses_read a r s4 at4 in
      let (s6, run6, at6) = law.fetches_nak a r s5 at5 below in
      (
        (cmds.stop s6).1,
        rw (run1, run2, run3, run4, run5)
            (ap (λ q. finish cmds (on_read (record { dev = s5; d = d }) 0 q)) run6),
        (suc a, law.stops unaddressed (suc a) r s6 tt at6),
      )

  -- A byte that is written to a register is read back, into the start of the buffer, from a slave that
  -- rests before.
  pub i2c_read_bus-i2c_write_bus :
      (a b : ℕ) (d : List ℕ) (s : S) (r : Memory)
      → Rests At s r
      → a < size
      → b < 256
      → (t : S) × (u : S) × (i2c_write_bus cmds sa a b s ≡ (rsp_done, t))
        × (i2c_read_bus cmds sa a d t ≡ (rsp_done, set d 0 b, u))
        × Rests At u (update r a b)
  i2c_read_bus-i2c_write_bus a b d s r rests below byte =
      let (t, wrote, stored) = i2c_write_bus-update a b s r rests below byte in
      let (u, read, kept) = i2c_read_bus-set a d t (update r a b) stored below in
      (t, u, wrote, read ∙ ap (λ v. (rsp_done, set d 0 v, u)) (update_same r a b), kept)
