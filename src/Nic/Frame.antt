-- ===== src/Nic/Frame.antt =====
-- The check of a received frame in application/ibexukIP/eth-nic.c.
use or1k_spartan6_platform_x.Base.{
  ℕ, suc, ◌+◌, ◌-◌, ◌*◌, ◌/◌, ◌<◌, ◌≤◌, ◌≡◌, inl, inr, refl, ap, sym, subst, ◌∙◌, arith, true,
  false, List, [], ◌∷◌, ◌++◌, get_or, ltb, ◌==◌, ==_iff, u8, if◌then◌else◌, Bool-cases,
}
use mathlib.Core.List.{append_cancel_left}
use or1k_spartan6_platform_x.Base.Memory.{Memory, AllByteCells, read_block, read_block-append}
use or1k_spartan6_platform_x.Crc32.{crc32, crc_loop}
use or1k_spartan6_platform_x.Nic.{ressived_crc, frame_accepted, crc_bytes}
use or1k_spartan6_platform_x.Nic.Transmit.{sealed}

crc32-lt : (bytes : List ℕ) → crc32 bytes < 4294967296
unfolding crc32
crc32-lt bytes = below (crc_loop bytes 4294967295)
  where
    below : (x : ℕ) → 4294967295 - x < 4294967296
    below x = omega arith

-- The word that lies in the four bytes behind a frame.
crc_bytes-word :
    (a b c d w : ℕ)
    → w < 4294967296
    → (a ∷ b ∷ c ∷ d ∷ []) ≡ crc_bytes w
    → d * 16777216 + c * 65536 + b * 256 + a ≡ w
unfolding crc_bytes
crc_bytes-word a b c d w hw e =
    let x0 : a ≡ u8 w = ap (λ l. get_or l 0 0) e in
    let x1 : b ≡ u8 (w / 256) = ap (λ l. get_or l 1 0) e in
    let x2 : c ≡ u8 (w / 65536) = ap (λ l. get_or l 2 0) e in
    let x3 : d ≡ u8 (w / 16777216) = ap (λ l. get_or l 3 0) e in omega arith

word-crc_bytes :
    (a b c d w : ℕ)
    → a < 256
    → b < 256
    → c < 256
    → d < 256
    → d * 16777216 + c * 65536 + b * 256 + a ≡ w
    → (a ∷ b ∷ c ∷ d ∷ []) ≡ crc_bytes w
unfolding crc_bytes
word-crc_bytes a b c d w ha hb hc hd e =
    let x0 : u8 w ≡ a = omega arith in
    let x1 : u8 (w / 256) ≡ b = omega arith in
    let x2 : u8 (w / 65536) ≡ c = omega arith in
    let x3 : u8 (w / 16777216) ≡ d = omega arith in rw (x0, x1, x2, x3) refl

four_cells :
    (k : Memory) (p n : ℕ)
    → read_block k p (n + 4)
      ≡ read_block k p n
        ++ (k (p + n) ∷ k (suc (p + n)) ∷ k (suc (suc (p + n))) ∷ k (suc (suc (suc (p + n)))) ∷ [])
unfolding read_block
four_cells k p n = read_block-append k p n 4

ressived_crc-eq :
    (k : Memory) (p n : ℕ)
    → ressived_crc k p (n + 4)
      ≡ k (suc (suc (suc (p + n)))) * 16777216
        + k (suc (suc (p + n))) * 65536
        + k (suc (p + n)) * 256
        + k (p + n)
unfolding ressived_crc
ressived_crc-eq k p n =
    let x0 : p + (n + 4 - 4) ≡ p + n = omega arith in
    let x1 : p + (n + 4 - 3) ≡ suc (p + n) = omega arith in
    let x2 : p + (n + 4 - 2) ≡ suc (suc (p + n)) = omega arith in
    let x3 : p + (n + 4 - 1) ≡ suc (suc (suc (p + n))) = omega arith in rw (x0, x1, x2, x3) refl

module _ (k : Memory) (p n : ℕ) where
  abbrev body : List ℕ
  body = read_block k p n

  abbrev last : List ℕ
  last = k (p + n) ∷ k (suc (p + n)) ∷ k (suc (suc (p + n))) ∷ k (suc (suc (suc (p + n)))) ∷ []

  abbrev last_word : ℕ
  last_word =
      k (suc (suc (suc (p + n)))) * 16777216
      + k (suc (suc (p + n))) * 65536
      + k (suc (p + n)) * 256
      + k (p + n)

  frame_accepted-last_word : 60 ≤ n → frame_accepted k p (n + 4) ≡ (last_word == crc32 body)
  unfolding frame_accepted
  frame_accepted-last_word h = rw (long n h, back n, ressived_crc-eq k p n) refl
    where
      long : (j : ℕ) → 60 ≤ j → ltb (j + 4) 64 ≡ false
      long j l = ground arith

      back : (j : ℕ) → j + 4 - 4 ≡ j
      back j = omega arith

  -- A frame of at least 64 bytes that ends with its own checksum passes the check.
  pub sealed-frame_accepted :
      60 ≤ n → read_block k p (n + 4) ≡ sealed body → frame_accepted k p (n + 4) ≡ true
  unfolding sealed
  sealed-frame_accepted h e =
      let ends =
        append_cancel_left body last (crc_bytes (crc32 body)) (sym (four_cells k p n) ∙ e) in
      let word =
        crc_bytes-word (k (p + n)) (k (suc (p + n))) (k (suc (suc (p + n))))
          (k (suc (suc (suc (p + n))))) (crc32 body) (crc32-lt body) ends in
      frame_accepted-last_word h ∙ (==_iff last_word (crc32 body)).1 word

  -- No other frame of bytes passes it.
  frame_accepted-sealed_long :
      AllByteCells k
      → 60 ≤ n
      → frame_accepted k p (n + 4) ≡ true
      → read_block k p (n + 4) ≡ sealed body
  unfolding sealed
  frame_accepted-sealed_long cells h e =
      let word = (==_iff last_word (crc32 body)).0 (sym (frame_accepted-last_word h) ∙ e) in
      four_cells k p n
      ∙ ap (λ l. body ++ l)
          (word-crc_bytes (k (p + n)) (k (suc (p + n))) (k (suc (suc (p + n))))
            (k (suc (suc (suc (p + n))))) (crc32 body) (cells (p + n)) (cells (suc (p + n)))
            (cells (suc (suc (p + n)))) (cells (suc (suc (suc (p + n))))) word)

pub frame_accepted-le : (k : Memory) (p n : ℕ) → frame_accepted k p n ≡ true → 64 ≤ n
unfolding frame_accepted
frame_accepted-le k p n h = elim (Bool-cases (ltb n 64)) [
  | inl e ↦ absurd (
      short (
        subst
          (λ b. (if b then false else ressived_crc k p n == crc32 (read_block k p (n - 4))) ≡ true)
          e h))
  | inr e ↦ ground arith
]
  where
    short : false ≡ true → ⊥
    short e = cc

pub frame_accepted-sealed :
    (k : Memory) (p n : ℕ)
    → AllByteCells k
    → frame_accepted k p n ≡ true
    → read_block k p n ≡ sealed (read_block k p (n - 4))
frame_accepted-sealed k p n cells h =
    let long = frame_accepted-le k p n h in
    let back : n - 4 + 4 ≡ n = omega arith in
    subst (λ j. read_block k p j ≡ sealed (read_block k p (n - 4))) back
      (frame_accepted-sealed_long k p (n - 4) cells (omega arith)
        (subst (λ j. frame_accepted k p j ≡ true) (sym back) h))
