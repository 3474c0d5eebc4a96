-- ===== src/BbI2c/Chip.antt =====
-- A slave with registers on the two lines of application/libhw/bb_i2c.c, by the rules of the bus: a start
-- is a fall of SDA while SCL is high and a stop a rise, a bit is taken where SCL rises, and the slave
-- changes its own level of SDA where SCL falls. It acknowledges by holding SDA low for a clock.
use or1k_spartan6_platform_x.Base.{
  ℕ, zero, suc, ◌+◌, ◌*◌, ◌/◌, ◌%◌, ◌^◌, Bool, true, false, ◌&&◌, not, List, [], ◌∷◌, u8, ◌==◌,
  if◌then◌else◌,
}
use or1k_spartan6_platform_x.Base.Memory.{update}
use or1k_spartan6_platform_x.I2c.Slave.{
  Phase, unaddressed, addressing, selecting, writing, reading, Slave,
}
use or1k_spartan6_platform_x.BbI2c.{Drive}
use or1k_spartan6_platform_x.BbI2c.Receiver.{bit}

-- What the slave does at the bit level: nothing, taking a byte with so many bits to go, holding the
-- acknowledgement, giving a byte with so many bits behind the current one, looking for the master's
-- acknowledgement, and having seen it.
pub data Act : Type 0 where
  away : Act
  taking : ℕ → ℕ → Act
  acking : Act
  giving : ℕ → ℕ → Act
  looking : Act
  more : Act

pub record Chip : Type 0 where
  pub act : Act
  pub view : Slave

-- Whether the slave pulls SDA low.
abbrev pub pulls : Act → Bool
pulls acking = true
pulls (giving n w) = not (w / 2 ^ 7 % 2 == 1)
pulls (taking n w) = false
pulls away = false
pulls looking = false
pulls more = false

abbrev pub fresh : Act
fresh = taking 8 0

abbrev pub next_byte : Slave → Chip
next_byte v = record { act = giving 7 (v.regs v.pointer); view = v }

-- A whole byte, by what the slave expects. `sa` is its address.
abbrev pub accept : ℕ → Phase → ℕ → Slave → Chip
accept sa addressing w v =
    if w == sa * 2
    then record { act = acking; view = record v { phase = selecting } }
    else if w == sa * 2 + 1
    then record { act = acking; view = record v { phase = reading } }
    else record { act = away; view = record v { phase = unaddressed } }
accept sa selecting w v = record { act = acking; view = record v { phase = writing; pointer = w } }
accept sa writing w v = record {
  act = acking;
  view = record v { regs = update v.regs v.pointer w; pointer = suc v.pointer };
}
accept sa reading w v = record { act = away; view = v }
accept sa unaddressed w v = record { act = away; view = v }

abbrev pub acked : Phase → Slave → Chip
acked reading v = next_byte v
acked unaddressed v = record { act = fresh; view = v }
acked addressing v = record { act = fresh; view = v }
acked selecting v = record { act = fresh; view = v }
acked writing v = record { act = fresh; view = v }

-- SCL falls.
abbrev pub fall : ℕ → Act → Slave → Chip
fall sa (taking zero w) v = accept sa v.phase w v
fall sa (taking (suc n) w) v = record { act = taking (suc n) w; view = v }
fall sa acking v = acked v.phase v
fall sa (giving zero w) v = record { act = looking; view = record v { pointer = suc v.pointer } }
fall sa (giving (suc n) w) v = record { act = giving n (u8 (w * 2)); view = v }
fall sa more v = next_byte v
fall sa looking v = record { act = looking; view = v }
fall sa away v = record { act = away; view = v }

-- SCL rises with a level of SDA.
abbrev pub rise : Bool → Act → Slave → Chip
rise b (taking (suc n) w) v = record { act = taking n (2 * w + bit b); view = v }
rise b (taking zero w) v = record { act = taking zero w; view = v }
rise true looking v = record { act = away; view = record v { phase = unaddressed } }
rise false looking v = record { act = more; view = v }
rise b acking v = record { act = acking; view = v }
rise b (giving n w) v = record { act = giving n w; view = v }
rise b more v = record { act = more; view = v }
rise b away v = record { act = away; view = v }

-- A change of the levels that the master drives. While the slave holds SDA, a change there is not seen.
abbrev pub see_sda : Bool → Bool → Chip → Chip
see_sda false true c =
    if pulls c.act then c else record { act = fresh; view = record (c.view) { phase = addressing } }
see_sda true false c =
    if pulls c.act then c else record { act = away; view = record (c.view) { phase = unaddressed } }
see_sda false false c = c
see_sda true true c = c

abbrev pub see : ℕ → Bool → Bool → Drive → Drive → Chip → Chip
see sa false true a b c = fall sa c.act c.view
see sa true false a b c = rise (not b.sda_low && not (pulls c.act)) c.act c.view
see sa false false a b c = see_sda a.sda_low b.sda_low c
see sa true true a b c = c

abbrev pub released : Drive
released = record { sda_low = false; scl_low = false }

abbrev pub last_drive : List Drive → Drive
last_drive [] = released
last_drive (d ∷ ds) = d

-- The slave behind all that was driven so far, from the state `c` on.
unfoldable pub chip_of : ℕ → Chip → List Drive → Chip
chip_of sa c [] = c
chip_of sa c (d ∷ ds) = see sa (last_drive ds).scl_low d.scl_low (last_drive ds) d (chip_of sa c ds)

-- The level that the slave leaves on SDA. It never holds SCL.
unfoldable pub answers : ℕ → Chip → List Drive → Bool
answers sa c ds = not (pulls (chip_of sa c ds).act)

abbrev pub unheld : List Drive → Bool
unheld ds = true
