-- ===== src/I2c/Order.antt =====
-- The order of the bus commands in the transactions of application/libhw/i2c.c.
use or1k_spartan6_platform_x.Base.{
  ℕ, ◌≡◌, refl, List, [], ◌∷◌, ◌++◌, some, map, append_assoc, append-nil, fun_ext, ap, ◌∙◌, sym,
}
use or1k_spartan6_platform_x.I2c.{
  rsp_done, Commands, Flow, go, leave, quit, and_then, or_break, finish, address, read_loop,
  i2c_read_bus, i2c_read_bus_mul, write_loop, i2c_write_bus, i2c_write_bus_mul,
}

-- A command on the bus.
pub data Command : Type 0 where
  started stopped acked nacked : Command
  wrote : ℕ → Command

-- A device that answers every command and keeps the commands in order.
abbrev pub logger : Commands (List Command)
logger = record {
  start = λ s. (rsp_done, s ++ started ∷ []);
  stop = λ s. (rsp_done, s ++ stopped ∷ []);
  write = λ b s. (rsp_done, s ++ wrote b ∷ []);
  read_ack = λ s. (rsp_done, some 0, s ++ acked ∷ []);
  read_nak = λ s. (rsp_done, some 0, s ++ nacked ∷ []);
}

write_loop-logger :
    (bs d : List ℕ) (s : List Command)
    → write_loop logger bs (record { dev = s; d = d })
      ≡ go (record { dev = s ++ map wrote bs; d = d })
unfolding write_loop
write_loop-logger [] d s = ap (λ l. go (record { dev = l; d = d })) (sym (append-nil s))
write_loop-logger (b ∷ bs) d s =
    write_loop-logger bs d (s ++ wrote b ∷ [])
    ∙ ap (λ l. go (record { dev = l; d = d })) (append_assoc s (wrote b ∷ []) (map wrote bs))

-- On a device that acknowledges everything, `i2c_write_bus_mul` starts, addresses the slave for
-- writing, selects the register, writes the bytes in order, and stops.
pub i2c_write_bus_mul-logger :
    (sa a : ℕ) (bs : List ℕ) (s : List Command)
    → i2c_write_bus_mul logger sa a bs s ≡ (
      rsp_done,
      s ++ started ∷ wrote (address logger sa 0) ∷ wrote a ∷ (map wrote bs ++ stopped ∷ []),
    )
unfolding i2c_write_bus_mul finish
i2c_write_bus_mul-logger sa a bs s =
    rw
      (write_loop-logger bs []
        (((s ++ started ∷ []) ++ wrote (address logger sa 0) ∷ []) ++ wrote a ∷ []))
      (ap (λ l. (rsp_done, l)) (simp append_assoc))

module _ {S : Type 0} (cmds : Commands S) where
  and_then-go : (f : Flow S) → and_then f go ≡ f
  and_then-go (go x) = refl
  and_then-go (leave r x) = refl
  and_then-go (quit r x) = refl

  write_loop-one : (b : ℕ) → write_loop cmds (b ∷ []) ≡ or_break (cmds.write b)
  unfolding write_loop
  write_loop-one b = fun_ext λ x. and_then-go (or_break (cmds.write b) x)

  -- On every device, the transactions for one byte are those for several bytes with one.
  pub i2c_bus-mul :
      (sa a b : ℕ) (d : List ℕ) (s : S)
      → (i2c_read_bus cmds sa a d s ≡ i2c_read_bus_mul cmds sa a d 1 s)
        × (i2c_write_bus cmds sa a b s ≡ i2c_write_bus_mul cmds sa a (b ∷ []) s)
  unfolding i2c_read_bus i2c_read_bus_mul read_loop i2c_write_bus i2c_write_bus_mul
  i2c_bus-mul sa a b d s = (refl, rw (write_loop-one b) refl)
