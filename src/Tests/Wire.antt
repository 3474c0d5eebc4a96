-- ===== src/Tests/Wire.antt =====
-- The clock chip at address 0x68 on the two lines of the bit-banged bus.
use or1k_spartan6_platform_x.Base.{◌*◌, ◌%◌, ◌≡◌, refl, arith, false, some, [], ◌∷◌}
use or1k_spartan6_platform_x.Base.Memory.{Memory, update, write_block}
use or1k_spartan6_platform_x.I2c.{
  Commands, rsp_done, rsp_nak, i2c_read_bus, i2c_read_bus_mul, i2c_write_bus, i2c_write_bus_mul,
}
use or1k_spartan6_platform_x.I2c.Slave.{unaddressed, slave, Rests}
use or1k_spartan6_platform_x.BbI2c.{
  Port, bb_commands, bb_i2c_cmd_start, sda_status, bb_i2c_cmd_write, scl_1, sda_1, scl_0,
  write_bits, sda_0, scl_status, bb_i2c_cmd_stop, bb_i2c_cmd_read_nak, bb_i2c_cmd_read_com,
  read_bits, finalise_read_com,
}
use or1k_spartan6_platform_x.BbI2c.Chip.{Chip, away, released, chip_of, answers, unheld}
use or1k_spartan6_platform_x.BbI2c.OnWire.{OnWire}
use or1k_spartan6_platform_x.BbI2c.Law.{bb_commands-HasSlave}
use or1k_spartan6_platform_x.BbI2c.Transfer.{
  behind_address, i2c_read_bus_mul-i2c_write_bus_mul, i2c_transactions-absent,
}
use or1k_spartan6_platform_x.Ds1338z.{ClockData, ok, get_unix_time, set_unix_time}
use or1k_spartan6_platform_x.Ds1338z.Bus.{get_unix_time-set_unix_time}

abbrev squares : Memory
squares a = a * a % 256

abbrev asleep : Chip
asleep = record { act = away; view = slave unaddressed 0 squares }

abbrev quiet : Port
quiet = record { now = released; trace = [] }

abbrev clock_wire : Commands Port
clock_wire = bb_commands (answers 104 asleep) unheld

quiet-Rests : Rests (OnWire 104 asleep) quiet squares
unfolding chip_of
quiet-Rests = (0, (false, (refl, refl, refl), λ q. omega arith))

i2c_read_bus_mul-i2c_write_bus_mul_example :
    (t : Port) × (u : Port) × (i2c_write_bus_mul clock_wire 104 8 (170 ∷ 85 ∷ 255 ∷ []) quiet
      ≡ (rsp_done, t))
    × (i2c_read_bus_mul clock_wire 104 8 (0 ∷ 0 ∷ 0 ∷ []) 3 t ≡ (rsp_done, 170 ∷ 85 ∷ 255 ∷ [], u))
    × Rests (OnWire 104 asleep) u (write_block squares 8 (170 ∷ 85 ∷ 255 ∷ []))
i2c_read_bus_mul-i2c_write_bus_mul_example =
    i2c_read_bus_mul-i2c_write_bus_mul 104 asleep 8 (170 ∷ 85 ∷ 255 ∷ []) (0 ∷ 0 ∷ 0 ∷ []) quiet
      squares (omega arith) quiet-Rests (omega arith) (omega arith) (omega arith) refl

i2c_transactions-absent_example :
    let t = behind_address 104 asleep 80 quiet in
    (i2c_write_bus_mul clock_wire 80 8 (1 ∷ []) quiet ≡ (rsp_nak, t))
    × (i2c_write_bus clock_wire 80 8 2 quiet ≡ (rsp_nak, t))
    × (i2c_read_bus_mul clock_wire 80 8 (0 ∷ 0 ∷ []) 2 quiet ≡ (rsp_nak, 0 ∷ 0 ∷ [], t))
    × (i2c_read_bus clock_wire 80 8 (0 ∷ 0 ∷ []) quiet ≡ (rsp_nak, 0 ∷ 0 ∷ [], t))
    × Rests (OnWire 104 asleep) t squares
i2c_transactions-absent_example =
    i2c_transactions-absent 104 asleep 80 8 2 2 (1 ∷ []) (0 ∷ 0 ∷ []) quiet squares (omega arith)
      (omega arith) (λ e. absurd (omega arith)) quiet-Rests

abbrev midnight : ClockData
midnight = record { second = 0; minute = 0; hour = 0; dow = 1; day = 1; month = 1; year = 0 }

get_unix_time-set_unix_time_example :
    (t : Port) × (u : Port) × (set_unix_time clock_wire midnight 1480182336 quiet ≡ (ok, t))
    × (get_unix_time clock_wire (0 ∷ 0 ∷ 0 ∷ 0 ∷ 0 ∷ 0 ∷ 0 ∷ []) t ≡ ((ok, some 1480182336), u))
get_unix_time-set_unix_time_example =
    get_unix_time-set_unix_time clock_wire (OnWire 104 asleep)
      (bb_commands-HasSlave 104 asleep (omega arith) 64 (omega arith)) midnight 1480182336
      (0 ∷ 0 ∷ 0 ∷ 0 ∷ 0 ∷ 0 ∷ 0 ∷ []) quiet squares quiet-Rests (omega arith) (omega arith)
      (omega arith) refl

-- The same by running the commands: a byte goes over the lines and comes back.
there_and_back :
    (let t = (i2c_write_bus clock_wire 104 8 171 quiet).1 in
      (i2c_read_bus clock_wire 104 8 (0 ∷ []) t).1)
    ≡ 171 ∷ []
unfolding chip_of answers bb_commands i2c_write_bus i2c_read_bus update bb_i2c_cmd_start sda_status
    bb_i2c_cmd_write scl_1 sda_1 scl_0 write_bits sda_0 scl_status bb_i2c_cmd_stop
    bb_i2c_cmd_read_nak bb_i2c_cmd_read_com read_bits finalise_read_com
there_and_back = refl
