-- ===== src/GdbHw/Order.antt =====
-- Characters through application/gdb_stub/gdb_hw.c: those received are read in the order in which
-- the line brings them.
use or1k_spartan6_platform_x.Base.{
  ℕ, suc, ◌+◌, ◌<◌, ◌≤◌, ◌≡◌, refl, ap, sym, subst, ◌∙◌, arith, Option, none, some, List, [], ◌∷◌,
  ◌++◌, append_assoc, append-nil, length, length-append,
}
use mathlib.Core.List.{head-eq_of_cons-eq, tail-eq_of_cons-eq}
use or1k_spartan6_platform_x.GdbHw.{Ring, Console, look, getchar_loop, gdb_getchar}
use or1k_spartan6_platform_x.GdbHw.Queue.{IsQueue, store-IsQueue, take_char-cons, take_char-nil}

-- What the line still brings.
abbrev pub arrivals : List (Option ℕ) → List ℕ
arrivals [] = []
arrivals (none ∷ rest) = arrivals rest
arrivals (some c ∷ rest) = c ∷ arrivals rest

-- The characters that have been received, or will be, and have not been read.
abbrev pub IsPending : Console → List ℕ → List ℕ → Type 0
IsPending s q p = IsQueue s.ring q × (p ≡ q ++ arrivals s.line)

pub look-IsPending :
    (line : List (Option ℕ)) (r : Ring) (q : List ℕ)
    → IsQueue r q
    → length q < 127
    → (q' : List ℕ) × IsQueue (look line r).0 q'
      × (q' ++ arrivals (look line r).1 ≡ q ++ arrivals line)
      × (length q ≤ length q')
      × (length q' ≤ length q + 1)
unfolding look
look-IsPending [] r q h room = (q, h, refl, omega arith, omega arith)
look-IsPending (none ∷ rest) r q h room = (q, h, refl, omega arith, omega arith)
look-IsPending (some c ∷ rest) r q h room =
    let n = length-append q (c ∷ []) in
    (
      q ++ (c ∷ []),
      store-IsQueue r q c h room,
      append_assoc q (c ∷ []) (arrivals rest),
      omega (arith, n),
      omega (arith, n),
    )

-- The loop returns `c` and leaves `p` to be read, with at most `n` characters in the ring.
abbrev Returns : ℕ → List (Option ℕ) → Ring → ℕ → List ℕ → Type 0
Returns n line r c p =
    (t : Ring) × (rest : List (Option ℕ)) × (q : List ℕ) × (getchar_loop line r ≡ some (c, t, rest))
    × IsQueue t q
    × (q ++ arrivals rest ≡ p)
    × (length q ≤ n)

look-rest : (e : Option ℕ) (rest : List (Option ℕ)) (r : Ring) → (look (e ∷ rest) r).1 ≡ rest
unfolding look
look-rest none rest r = refl
look-rest (some c) rest r = refl

getchar_loop-taken :
    (n : ℕ) (e : Option ℕ) (rest : List (Option ℕ)) (r : Ring) (c : ℕ) (q p : List ℕ)
    → IsQueue (look (e ∷ rest) r).0 (c ∷ q)
    → q ++ arrivals rest ≡ p
    → length q ≤ n
    → Returns n (e ∷ rest) r c p
unfolding getchar_loop
getchar_loop-taken n e rest r c q p h same few =
    let t = take_char-cons (look (e ∷ rest) r).0 c q h in
    (t.0, rest, q, rw (t.1) refl, t.2, same, few)

getchar_loop-empty :
    (n : ℕ) (e : Option ℕ) (rest : List (Option ℕ)) (r : Ring) (c : ℕ) (p : List ℕ)
    → IsQueue (look (e ∷ rest) r).0 []
    → Returns 0 rest (look (e ∷ rest) r).0 c p
    → Returns n (e ∷ rest) r c p
unfolding getchar_loop
getchar_loop-empty n e rest r c p h (t, line, q, run, queue, same, few) =
    (t, line, q, rw (take_char-nil (look (e ∷ rest) r).0 h) run, queue, same, omega arith)

getchar_loop-Returns :
    (line : List (Option ℕ)) (r : Ring) (q : List ℕ) (c : ℕ) (p : List ℕ)
    → IsQueue r q
    → length q < 127
    → q ++ arrivals line ≡ c ∷ p
    → Returns (length q) line r c p
unfolding getchar_loop
getchar_loop-Returns [] r q c p h room same =
    let whole : q ≡ c ∷ p = sym (append-nil q) ∙ same in
    let n : length q ≡ suc (length p) = ap length whole in
    let t = take_char-cons r c p (subst (λ l. IsQueue r l) whole h) in
    (t.0, [], p, rw (t.1) refl, t.2, append-nil p, omega (arith, n))
getchar_loop-Returns (e ∷ rest) r q c p h room same =
    let (q', h', kept, _, more) = look-IsPending (e ∷ rest) r q h room in
    let now : q' ++ arrivals rest ≡ c ∷ p =
      ap (λ l. q' ++ arrivals l) (sym (look-rest e rest r)) ∙ kept ∙ same in
    split q' h' now more (λ polled arrive.
      getchar_loop-Returns rest (look (e ∷ rest) r).0 [] c p polled (omega arith) arrive)
  where
    split :
        (q' : List ℕ)
        → IsQueue (look (e ∷ rest) r).0 q'
        → q' ++ arrivals rest ≡ c ∷ p
        → length q' ≤ length q + 1
        → (IsQueue (look (e ∷ rest) r).0 []
            → arrivals rest ≡ c ∷ p
            → Returns 0 rest (look (e ∷ rest) r).0 c p)
        → Returns (length q) (e ∷ rest) r c p
    split [] polled now few again =
        getchar_loop-empty (length q) e rest r c p polled (again polled now)
    split (x ∷ xs) polled now few again =
        subst (λ y. Returns (length q) (e ∷ rest) r y p) (head-eq_of_cons-eq now)
          (getchar_loop-taken (length q) e rest r x xs p polled (tail-eq_of_cons-eq now)
            (omega arith))

-- The reading of a character adds none to those that wait in the ring.
pub gdb_getchar-shrinks :
    (s : Console) (q : List ℕ) (c : ℕ) (p : List ℕ)
    → IsPending s q (c ∷ p)
    → length q < 127
    → (t : Console) × (q' : List ℕ) × (gdb_getchar s ≡ some (c, t))
      × IsPending t q' p
      × (length q' ≤ length q)
      × (t.sent ≡ s.sent)
      × (t.busy ≡ s.busy)
unfolding gdb_getchar
gdb_getchar-shrinks s q c p h room =
    let (r, line, q', run, rest, same, few) =
      getchar_loop-Returns s.line s.ring q c p h.0 room (sym h.1) in
    (record s { ring = r; line = line }, q', rw run refl, (rest, sym same), few, refl, refl)

-- A character that was received or that the line still brings is read, and they are read one by one
-- in the order in which the line brings them, if fewer than 127 wait when the reading begins.
pub gdb_getchar-IsPending :
    (s : Console) (q : List ℕ) (c : ℕ) (p : List ℕ)
    → IsPending s q (c ∷ p)
    → length q < 127
    → (t : Console) × (q' : List ℕ) × (gdb_getchar s ≡ some (c, t))
      × IsPending t q' p
      × (length q' < 127)
      × (t.sent ≡ s.sent)
gdb_getchar-IsPending s q c p h room =
    let (t, q', run, rest, few, same, _) = gdb_getchar-shrinks s q c p h room in
    (t, q', run, rest, omega arith, same)
