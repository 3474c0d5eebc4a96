-- ===== src/Nic/Transmit.antt =====
-- Frames on their way out through application/ibexukIP/eth-nic.c.
use or1k_spartan6_platform_x.Base.{
  ℕ, ◌+◌, ◌-◌, ◌%◌, ap, ◌∙◌, ◌<◌, ◌≤◌, ◌≡◌, inl, inr, refl, arith, true, false, List, [], ◌∷◌, ◌++◌,
  length, length-append, length-replicate, replicate, append-nil, ltb, u16, Bool-cases, ltb→lt,
}
use or1k_spartan6_platform_x.Base.Memory.{
  Memory, read_block, write_block, read_block-write_block, read_block-write_block_apart,
  read_block-append,
}
use or1k_spartan6_platform_x.Crc32.{crc32}
use or1k_spartan6_platform_x.MiniMac.{Config, Mac, tx_slot_data, start_transmission, counter_range}
use or1k_spartan6_platform_x.MiniMac.Counters.{counter_range-lt}
use or1k_spartan6_platform_x.Nic.{
  Nic, nic_setup_tx, nic_write_array, nic_write_next_byte, write_eth_header_to_nic, ethernet_header,
  pad_frame, crc_bytes, nic_tx_packet,
}

-- The transmit memory holds the beginning `bytes` of a frame, and the next byte goes behind it.
abbrev pub IsFilling : Config → Nic → List ℕ → Type 0
IsFilling cfg s bytes =
    (s.tx_pointer ≡ cfg.tx_mem_base + length bytes)
    × (s.tx_len ≡ length bytes)
    × (read_block s.mac.memory cfg.tx_mem_base (length bytes) ≡ bytes)

-- What the MAC sends: as many bytes of the transmit memory as its register says.
unfoldable pub transmitted : Config → Mac → List ℕ
transmitted cfg m = read_block m.memory cfg.tx_mem_base m.tx_remaining

-- A frame's beginning with zeros up to 60 bytes, and its checksum behind.
abbrev pub padded : List ℕ → List ℕ
padded bytes = bytes ++ replicate (60 - length bytes) 0

unfoldable pub sealed : List ℕ → List ℕ
sealed bytes = bytes ++ crc_bytes (crc32 bytes)

read_block_extended :
    (k : Memory) (p : ℕ) (xs ys : List ℕ)
    → read_block k p (length xs) ≡ xs
    → read_block (write_block k (p + length xs) ys) p (length (xs ++ ys)) ≡ xs ++ ys
read_block_extended k p xs ys h =
    rw
      (
        length-append xs ys,
        read_block-append (write_block k (p + length xs) ys) p (length xs) (length ys),
        read_block-write_block_apart k p (length xs) (p + length xs) ys (inl (omega arith)),
        h,
        read_block-write_block k (p + length xs) ys,
      )
      refl

pub nic_setup_tx-IsFilling : (cfg : Config) (s : Nic) → IsFilling cfg (nic_setup_tx cfg s) []
unfolding nic_setup_tx tx_slot_data read_block
nic_setup_tx-IsFilling cfg s = (omega arith, refl, refl)

pub nic_write_array-IsFilling :
    (cfg : Config) (s : Nic) (bytes more : List ℕ)
    → IsFilling cfg s bytes
    → length bytes + length more < 65536
    → IsFilling cfg (nic_write_array more s) (bytes ++ more)
unfolding nic_write_array
nic_write_array-IsFilling cfg s bytes more h b = (
  omega (arith, h.0, length-append bytes more),
  omega (arith, h.1, length-append bytes more),
  rw (h.0) (read_block_extended s.mac.memory cfg.tx_mem_base bytes more h.2),
)

pub nic_write_next_byte-IsFilling :
    (cfg : Config) (s : Nic) (bytes : List ℕ) (b : ℕ)
    → IsFilling cfg s bytes
    → length bytes + 1 < 65536
    → IsFilling cfg (nic_write_next_byte b s) (bytes ++ (b ∷ []))
unfolding nic_write_next_byte
nic_write_next_byte-IsFilling cfg s bytes b h lt = (
  omega (arith, h.0, length-append bytes (b ∷ [])),
  omega (arith, h.1, length-append bytes (b ∷ [])),
  rw (h.0) (read_block_extended s.mac.memory cfg.tx_mem_base bytes (b ∷ []) h.2),
)

pub write_eth_header_to_nic-IsFilling :
    (cfg : Config) (s : Nic) (ours remote : List ℕ) (kind : ℕ)
    → IsFilling cfg s []
    → IsFilling cfg (write_eth_header_to_nic ours remote kind s) (ethernet_header remote ours kind)
unfolding write_eth_header_to_nic ethernet_header
write_eth_header_to_nic-IsFilling cfg s ours remote kind h = (
  omega (arith, h.0),
  refl,
  rw (h.0)
      (read_block_extended s.mac.memory cfg.tx_mem_base [] (ethernet_header remote ours kind) h.2),
)

pub length-padded :
    (bytes : List ℕ)
    → (60 ≤ length (padded bytes)) × (length (padded bytes) ≡ length bytes + (60 - length bytes))
length-padded bytes =
    let n = length-append bytes (replicate (60 - length bytes) 0) in
    let k = length-replicate {A = ℕ} (60 - length bytes) 0 in
    (omega (arith, n, k), omega (arith, n, k))

pad_frame-IsFilling :
    (cfg : Config) (s : Nic) (bytes : List ℕ)
    → IsFilling cfg s bytes
    → IsFilling cfg (pad_frame cfg s) (padded bytes)
unfolding pad_frame tx_slot_data
pad_frame-IsFilling cfg s bytes h = elim (Bool-cases (ltb s.tx_len 60)) [
  | inl e ↦ rw e (short e)
  | inr e ↦ rw e (long e)
]
  where
    zeros : List ℕ
    zeros = replicate (60 - s.tx_len) 0

    short :
        ltb s.tx_len 60 ≡ true
        → (cfg.tx_mem_base + 60 ≡ cfg.tx_mem_base + length (padded bytes))
          × (60 ≡ length (padded bytes))
          × (read_block
                (write_block s.mac.memory s.tx_pointer zeros)
                cfg.tx_mem_base
                (length (padded bytes))
              ≡ padded bytes)
    short e =
        let size = length-padded bytes in
        let lt = ltb→lt s.tx_len 60 e in
        (
          omega (arith, size.1, h.1, lt),
          omega (arith, size.1, h.1, lt),
          rw (h.0, h.1)
              (read_block_extended s.mac.memory cfg.tx_mem_base bytes
                (replicate (60 - length bytes) 0) h.2),
        )

    none_missing : ltb s.tx_len 60 ≡ false → padded bytes ≡ bytes
    none_missing e = rw (gap e) (append-nil bytes)
      where
        gap : ltb s.tx_len 60 ≡ false → 60 - length bytes ≡ 0
        gap e = ground (arith, h.1)

    long : ltb s.tx_len 60 ≡ false → IsFilling cfg s (padded bytes)
    long e = rw (none_missing e) h

-- What goes out for a frame that was written from its beginning is that beginning with zeros up to
-- 60 bytes, and the checksum of all of it behind, low byte first, if this is shorter than `MTU`, which
-- is at most 2 ^ 16.
pub nic_tx_packet-transmitted :
    (cfg : Config) (s : Nic) (bytes : List ℕ)
    → IsFilling cfg s bytes
    → cfg.mtu ≤ 65536
    → length (padded bytes) + 4 < cfg.mtu
    → transmitted cfg (nic_tx_packet cfg s).mac ≡ sealed (padded bytes)
unfolding nic_tx_packet transmitted sealed start_transmission tx_slot_data crc_bytes
nic_tx_packet-transmitted cfg s bytes h most b =
    let full = pad_frame-IsFilling cfg s bytes h in
    let crc = crc_bytes (crc32 (padded bytes)) in
    rw (full.0, full.1, full.2, size crc refl)
      (read_block_extended (pad_frame cfg s).mac.memory cfg.tx_mem_base (padded bytes) crc full.2)
  where
    size :
        (crc : List ℕ)
        → length crc ≡ 4
        → u16 (u16 (length (padded bytes) + 4)) % counter_range cfg ≡ length (padded bytes ++ crc)
    size crc e =
        let whole : u16 (u16 (length (padded bytes) + 4)) ≡ length (padded bytes) + 4 =
          omega (arith, most, b) in
        ap (λ n. n % counter_range cfg) whole
        ∙ counter_range-lt cfg (length (padded bytes) + 4) b
        ∙ omega (arith, length-append (padded bytes) crc, e)

pub length-packet :
    (ours remote : List ℕ) (kind : ℕ) (payload : List ℕ)
    → (length (ethernet_header remote ours kind) ≡ 14)
      × (14 + length payload ≤ length (padded (ethernet_header remote ours kind ++ payload)))
unfolding ethernet_header
length-packet ours remote kind payload =
    let frame = ethernet_header remote ours kind ++ payload in
    let total = length-append (ethernet_header remote ours kind) payload in
    (refl, omega (arith, total, (length-padded frame).1))

-- A packet that the stack sends goes out as the Ethernet header and the payload, with zeros up to 60
-- bytes and the checksum behind, if all of this is shorter than `MTU`, which is at most 2 ^ 16.
pub sent_packet-transmitted :
    (cfg : Config) (s : Nic) (ours remote : List ℕ) (kind : ℕ) (payload : List ℕ)
    → cfg.mtu ≤ 65536
    → length (padded (ethernet_header remote ours kind ++ payload)) + 4 < cfg.mtu
    → transmitted cfg
        (nic_tx_packet cfg (
          nic_write_array payload
            (write_eth_header_to_nic ours remote kind (nic_setup_tx cfg s)))).mac
      ≡ sealed (padded (ethernet_header remote ours kind ++ payload))
sent_packet-transmitted cfg s ours remote kind payload most b =
    let headed = write_eth_header_to_nic ours remote kind (nic_setup_tx cfg s) in
    let header = ethernet_header remote ours kind in
    let size = length-packet ours remote kind payload in
    nic_tx_packet-transmitted cfg (nic_write_array payload headed) (header ++ payload)
      (nic_write_array-IsFilling cfg headed header payload
        (write_eth_header_to_nic-IsFilling cfg (nic_setup_tx cfg s) ours remote kind
          (nic_setup_tx-IsFilling cfg s))
        (omega (arith, size.0, size.1, most, b)))
      most b
