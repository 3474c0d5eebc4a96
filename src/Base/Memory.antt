-- ===== src/Base/Memory.antt =====
-- Memory as a function of the address, and the blocks of bytes that lie in it.
use mathlib.Core.List.{head-eq_of_cons-eq, tail-eq_of_cons-eq}
use or1k_spartan6_platform_x.Base.{
  ℕ, zero, suc, ◌+◌, ◌≤◌, ◌<◌, ◌≡◌, ◌≢◌, refl, ap, ◌∙◌, ◌⊎◌, inl, inr, arith, List, [], ◌∷◌, ◌++◌,
  length, ◌==◌, ==-refl, ==-ne, Bool-cases, if◌then◌else◌,
}

unfoldable pub update {ℓ} : {A : Type ℓ} → (ℕ → A) → ℕ → A → ℕ → A
update f i a j = if i == j then a else f j

abbrev pub Memory : Type 0
Memory = ℕ → ℕ

abbrev pub AllByteCells : Memory → Type 0
AllByteCells k = (q : ℕ) → k q < 256

unfoldable pub read_block : Memory → ℕ → ℕ → List ℕ
read_block m p zero = []
read_block m p (suc n) = m p ∷ read_block m (suc p) n

unfoldable pub write_block : Memory → ℕ → List ℕ → Memory
write_block m p [] = m
write_block m p (b ∷ bs) = write_block (update m p b) (suc p) bs

module _ {ℓ} {A : Type ℓ} where
  pub update_same : (f : ℕ → A) (i : ℕ) (a : A) → update f i a i ≡ a
  unfolding update
  update_same f i a = rw (==-refl i)

  pub update_other : (f : ℕ → A) (i j : ℕ) (a : A) → i ≢ j → update f i a j ≡ f j
  unfolding update
  update_other f i j a h = rw (==-ne i j h)

pub update-AllByteCells :
    (m : Memory) (i b : ℕ) → AllByteCells m → b < 256 → AllByteCells (update m i b)
unfolding update
update-AllByteCells m i b bytes h q = elim (Bool-cases (i == q)) [
  | inl e ↦ rw e h
  | inr e ↦ rw e (bytes q)
]

-- A write leaves what lies outside its block.
pub write_block_outside :
    (m : Memory) (p : ℕ) (bs : List ℕ) (q : ℕ)
    → (q < p) ⊎ (p + length bs ≤ q)
    → write_block m p bs q ≡ m q
unfolding write_block
write_block_outside m p [] q h = refl
write_block_outside m p (b ∷ bs) q h =
    write_block_outside (update m p b) (suc p) bs q (past h) ∙ update_other m p q b (apart h)
  where
    past : (q < p) ⊎ (p + length (b ∷ bs) ≤ q) → (q < suc p) ⊎ (suc p + length bs ≤ q)
    past (inl l) = inl (omega arith)
    past (inr g) = inr (omega arith)

    apart : (q < p) ⊎ (p + length (b ∷ bs) ≤ q) → p ≢ q
    apart (inl l) e = absurd (omega arith)
    apart (inr g) e = absurd (omega arith)

pub length-read_block : (m : Memory) (p n : ℕ) → length (read_block m p n) ≡ n
unfolding read_block
length-read_block m p zero = refl
length-read_block m p (suc n) = ap suc (length-read_block m (suc p) n)

-- Memories that agree on a block hold the same bytes there.
pub read_block_same :
    (m k : Memory) (p n : ℕ)
    → ((q : ℕ) → p ≤ q → q < p + n → m q ≡ k q)
    → read_block m p n ≡ read_block k p n
unfolding read_block
read_block_same m k p zero h = refl
read_block_same m k p (suc n) h = rw (
  h p (omega arith) (omega arith),
  read_block_same m k (suc p) n (λ q l g. h q (omega arith) (omega arith)),
)

pub read_block-write_block :
    (m : Memory) (p : ℕ) (bs : List ℕ) → read_block (write_block m p bs) p (length bs) ≡ bs
unfolding write_block read_block
read_block-write_block m p [] = refl
read_block-write_block m p (b ∷ bs) = rw (
  write_block_outside (update m p b) (suc p) bs p (inl (omega arith)),
  update_same m p b,
  read_block-write_block (update m p b) (suc p) bs,
)

pub read_block-write_block_apart :
    (m : Memory) (p n : ℕ) (q : ℕ) (bs : List ℕ)
    → (p + n ≤ q) ⊎ (q + length bs ≤ p)
    → read_block (write_block m q bs) p n ≡ read_block m p n
read_block-write_block_apart m p n q bs h =
    read_block_same (write_block m q bs) m p n
      (λ a l g. write_block_outside m q bs a (side h a l g))
  where
    side :
        (p + n ≤ q) ⊎ (q + length bs ≤ p)
        → (a : ℕ) → p ≤ a
        → a < p + n
        → (a < q) ⊎ (q + length bs ≤ a)
    side (inl e) a l g = inl (omega arith)
    side (inr e) a l g = inr (omega arith)

pub read_block-append :
    (m : Memory) (p a b : ℕ) → read_block m p (a + b) ≡ read_block m p a ++ read_block m (p + a) b
unfolding read_block
read_block-append m p zero b = rw (left_zero b, right_zero p)
  where
    left_zero : (n : ℕ) → 0 + n ≡ n
    left_zero n = omega arith

    right_zero : (n : ℕ) → n + 0 ≡ n
    right_zero n = omega arith
read_block-append m p (suc a) b = rw (left_suc a b, right_suc p a, read_block-append m (suc p) a b)
  where
    left_suc : (n k : ℕ) → suc n + k ≡ suc (n + k)
    left_suc n k = omega arith

    right_suc : (n k : ℕ) → n + suc k ≡ suc n + k
    right_suc n k = omega arith

pub write_block-append :
    (m : Memory) (p : ℕ) (xs ys : List ℕ)
    → write_block m p (xs ++ ys) ≡ write_block (write_block m p xs) (p + length xs) ys
unfolding write_block
write_block-append m p [] ys = ap (λ q. write_block m q ys) (omega arith)
write_block-append m p (x ∷ xs) ys =
    write_block-append (update m p x) (suc p) xs ys
    ∙ ap (λ q. write_block (write_block (update m p x) (suc p) xs) q ys) (omega arith)

-- What begins a block that was read lies at its address.
pub read_block_prefix :
    (m : Memory) (p : ℕ) (xs ys : List ℕ) (n : ℕ)
    → read_block m p (length xs + n) ≡ xs ++ ys
    → read_block m p (length xs) ≡ xs
unfolding read_block
read_block_prefix m p [] ys n h = refl
read_block_prefix m p (x ∷ xs) ys n h =
    let whole : read_block m p (suc (length xs + n)) ≡ x ∷ (xs ++ ys) =
      ap (λ k. read_block m p k) (left_suc (length xs) n) ∙ h in
    rw (head-eq_of_cons-eq whole, read_block_prefix m (suc p) xs ys n (tail-eq_of_cons-eq whole))
      refl
  where
    left_suc : (a b : ℕ) → suc (a + b) ≡ suc a + b
    left_suc a b = omega arith
