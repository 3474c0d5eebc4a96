-- ===== src/I2c.antt =====
-- application/libhw/i2c.c and application/include/i2c.h: the four bus transactions over the bus
-- commands. `i2c_cmd_start` and its siblings are macros for one of two implementations (iicmb.c or
-- bb_i2c.c), so the transactions take them as a record.
pub mod Order
pub mod Slave
pub mod Single
use or1k_spartan6_platform_x.Base.{
  ℕ, zero, suc, ◌+◌, ◌-◌, u8, ◌<<<◌, List, [], ◌∷◌, Option, none, some, set,
}

-- `rsp_tt`.
pub data Rsp : Type 0 where
  rsp_done rsp_nak rsp_arb_lost rsp_err : Rsp

-- The bus commands on a device state `S`. A read command gives the byte that it stores through
-- its pointer, `none` where it stores nothing.
pub record Commands (S : Type 0) : Type 0 where
  pub start : S → Rsp × S
  pub stop : S → Rsp × S
  pub write : ℕ → S → Rsp × S
  pub read_ack : S → Rsp × Option ℕ × S
  pub read_nak : S → Rsp × Option ℕ × S

-- The device and the caller's buffer `d`.
pub record Xfer (S : Type 0) : Type 0 where
  pub dev : S
  pub d : List ℕ

-- Where control goes after a statement of a transaction: on, out of the `do … while (0)` to the
-- stop condition, or out of the function.
pub data Flow (S : Type 0) : Type 0 where
  go : Xfer S → Flow S
  leave : Rsp → Xfer S → Flow S
  quit : Rsp → Xfer S → Flow S

abbrev pub Stmt : Type 0 → Type 0
Stmt S = Xfer S → Flow S

abbrev pub store : List ℕ → ℕ → Option ℕ → List ℕ
store d i none = d
store d i (some v) = set d i v

module _ {S : Type 0} where
  abbrev pub and_then : Flow S → Stmt S → Flow S
  and_then (go x) k = k x
  and_then (leave r x) k = leave r x
  and_then (quit r x) k = quit r x

  infixl 5 ◌>>◌
  abbrev pub ◌>>◌ : Stmt S → Stmt S → Stmt S
  ◌>>◌ m k x = and_then (m x) k

  abbrev pub on_break : Xfer S → Rsp × S → Flow S
  on_break x (rsp_done, s) = go (record x { dev = s })
  on_break x (r, s) = leave r (record x { dev = s })

  abbrev pub on_quit : Xfer S → Rsp × S → Flow S
  on_quit x (rsp_done, s) = go (record x { dev = s })
  on_quit x (r, s) = quit r (record x { dev = s })

  -- `ret = …; if (ret != rsp_done) break;`
  abbrev pub or_break : (S → Rsp × S) → Stmt S
  or_break c x = on_break x (c x.dev)

  -- `ret = …; if (ret != rsp_done) return ret;`
  abbrev pub or_return : (S → Rsp × S) → Stmt S
  or_return c x = on_quit x (c x.dev)

  abbrev pub on_read : Xfer S → ℕ → Rsp × Option ℕ × S → Flow S
  on_read x i (r, v, s) = on_quit (record x { d = store x.d i v }) (r, s)

  -- A read into `*(d + i)`, with a return on failure.
  abbrev pub read_to : (S → Rsp × Option ℕ × S) → ℕ → Stmt S
  read_to c i x = on_read x i (c x.dev)

module _ {S : Type 0} (cmds : Commands S) where
  open cmds use {start, stop, write, read_ack, read_nak}

  -- The stop condition behind the `do … while (0)`, whose response is dropped.
  unfoldable pub finish : Flow S → Rsp × List ℕ × S
  finish (go x) = (rsp_done, x.d, (stop x.dev).1)
  finish (leave r x) = (r, x.d, (stop x.dev).1)
  finish (quit r x) = (r, x.d, x.dev)

  -- `(sa << 1) | b` as an `unsigned char`.
  abbrev pub address : ℕ → ℕ → ℕ
  address sa b = u8 (sa <<< 1 + b)

  -- The slave's register `a` is selected, and the slave is addressed again for reading.
  unfoldable pub select : ℕ → ℕ → Stmt S
  select sa a = do
    or_return start
    or_break (write (address sa 0))
    or_break (write a)
    or_return start
    or_break (write (address sa 1))

  unfoldable pub i2c_read_bus : ℕ → ℕ → List ℕ → S → Rsp × List ℕ × S
  unfolding select finish
  i2c_read_bus sa a d s = finish ((select sa a >> read_to read_nak 0) (record { dev = s; d = d }))

  -- `n - 1` rounds with acknowledge, from index `i`, then one without.
  unfoldable pub read_loop : ℕ → ℕ → Stmt S
  read_loop zero i = read_to read_nak i
  read_loop (suc left) i = read_to read_ack i >> read_loop left (i + 1)

  unfoldable pub i2c_read_bus_mul : ℕ → ℕ → List ℕ → ℕ → S → Rsp × List ℕ × S
  unfolding select finish
  i2c_read_bus_mul sa a d n s =
      finish ((select sa a >> read_loop (n - 1) 0) (record { dev = s; d = d }))

  -- The list is `d[i..n)`.
  unfoldable pub write_loop : List ℕ → Stmt S
  write_loop [] = go
  write_loop (b ∷ bs) = or_break (write b) >> write_loop bs

  unfoldable pub i2c_write_bus : ℕ → ℕ → ℕ → S → Rsp × S
  unfolding finish
  i2c_write_bus sa a b s = let (r, d, s') = finish (body (record { dev = s; d = [] })) in (r, s')
    where
      body : Stmt S
      body = do
        or_return start
        or_break (write (address sa 0))
        or_break (write a)
        or_break (write b)

  unfoldable pub i2c_write_bus_mul : ℕ → ℕ → List ℕ → S → Rsp × S
  unfolding finish
  i2c_write_bus_mul sa a bs s =
      let (r, d, s') = finish (body (record { dev = s; d = [] })) in (r, s')
    where
      body : Stmt S
      body = do or_return start; or_break (write (address sa 0)); or_break (write a); write_loop bs
