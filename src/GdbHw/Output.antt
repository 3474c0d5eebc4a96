-- ===== src/GdbHw/Output.antt =====
-- Sending through application/gdb_stub/gdb_hw.c, and the characters that come in meanwhile.
use or1k_spartan6_platform_x.Base.{
  ℕ, zero, suc, ◌+◌, ◌*◌, ◌<◌, ◌≤◌, ◌≡◌, refl, sym, subst, ◌∙◌, arith, Bool, true, false, List, [],
  ◌∷◌, ◌++◌, append_assoc, append-nil, length, ◌==◌, if◌then◌else◌,
}
use native.Mathlib.Nat.{suc-mul}
use or1k_spartan6_platform_x.GdbHw.{Console, gdb_pollrx, wait_sent, gdb_putchar, gdb_putstr}
use or1k_spartan6_platform_x.GdbHw.Order.{IsPending, look-IsPending}

-- Waiting for a character to go out loses and moves no character that comes in, if the ring has room
-- for one at each look.
wait_sent-IsPending :
    (n : ℕ) (s : Console) (q p : List ℕ)
    → IsPending s q p
    → length q + n < 128
    → (q' : List ℕ) × IsPending (wait_sent n s) q' p
      × (length q' ≤ length q + n)
      × ((wait_sent n s).sent ≡ s.sent)
      × ((wait_sent n s).busy ≡ s.busy)
unfolding wait_sent gdb_pollrx
wait_sent-IsPending zero s q p h room = (q, h, omega arith, refl, refl)
wait_sent-IsPending (suc n) s q p h room =
    let (q1, h1, kept, _, more) = look-IsPending s.line s.ring q h.0 (omega arith) in
    let rest = wait_sent-IsPending n (gdb_pollrx s) q1 p (h1, h.1 ∙ sym kept) (omega arith) in
    (rest.0, rest.1, omega (arith, rest.2, more), rest.3, rest.4)

-- The characters that a string goes out as: a carriage return before each line feed.
abbrev pub with_returns : List ℕ → List ℕ
with_returns [] = []
with_returns (c ∷ cs) = (if c == 10 then 13 ∷ c ∷ [] else c ∷ []) ++ with_returns cs

wait_sent-kept :
    (n : ℕ) (s : Console) → ((wait_sent n s).sent ≡ s.sent) × ((wait_sent n s).busy ≡ s.busy)
unfolding wait_sent gdb_pollrx
wait_sent-kept zero s = (refl, refl)
wait_sent-kept (suc n) s = wait_sent-kept n (gdb_pollrx s)

pub gdb_putchar-kept :
    (c : ℕ) (s : Console)
    → ((gdb_putchar c s).sent ≡ s.sent ++ (c ∷ [])) × ((gdb_putchar c s).busy ≡ s.busy)
unfolding gdb_putchar
gdb_putchar-kept c s =
    wait_sent-kept (s.busy (length s.sent)) (record s { sent = s.sent ++ (c ∷ []) })

pub gdb_putchar-IsPending :
    (c b : ℕ) (s : Console) (q p : List ℕ)
    → ((k : ℕ) → s.busy k ≤ b)
    → IsPending s q p
    → length q + b < 128
    → (q' : List ℕ) × IsPending (gdb_putchar c s) q' p × (length q' ≤ length q + b)
unfolding gdb_putchar
gdb_putchar-IsPending c b s q p slow h room =
    let n = slow (length s.sent) in
    let r =
      wait_sent-IsPending (s.busy (length s.sent)) (record s { sent = s.sent ++ (c ∷ []) }) q p h
        (omega arith) in
    (r.0, r.1, omega (arith, r.2))

-- One pass of the loop of `gdb_putstr`, behind its test.
abbrev put_one : Bool → ℕ → Console → Console
put_one feed c s = gdb_putchar c (if feed then gdb_putchar 13 s else s)

put_one-sent :
    (feed : Bool) (c : ℕ) (s : Console) (more : List ℕ)
    → (put_one feed c s).sent ++ more ≡ s.sent ++ ((if feed then 13 ∷ c ∷ [] else c ∷ []) ++ more)
put_one-sent true c s more =
    rw
      (
        (gdb_putchar-kept c (gdb_putchar 13 s)).0,
        (gdb_putchar-kept 13 s).0,
        append_assoc s.sent (13 ∷ []) (c ∷ []),
      )
      (append_assoc s.sent (13 ∷ c ∷ []) more)
put_one-sent false c s more = rw ((gdb_putchar-kept c s).0) (append_assoc s.sent (c ∷ []) more)

put_one-IsPending :
    (feed : Bool) (c b : ℕ) (s : Console) (q p : List ℕ)
    → ((k : ℕ) → s.busy k ≤ b)
    → IsPending s q p
    → length q + (b + b) < 128
    → (q' : List ℕ) × IsPending (put_one feed c s) q' p
      × (length q' ≤ length q + (b + b))
      × ((put_one feed c s).busy ≡ s.busy)
put_one-IsPending true c b s q p slow h room =
    let first = gdb_putchar-IsPending 13 b s q p slow h (omega arith) in
    let kept = (gdb_putchar-kept 13 s).1 in
    let second =
      gdb_putchar-IsPending c b (gdb_putchar 13 s) first.0 p
        (λ k. subst (λ f. f k ≤ b) (sym kept) (slow k)) first.1 (omega (arith, first.2)) in
    (
      second.0,
      second.1,
      omega (arith, first.2, second.2),
      (gdb_putchar-kept c (gdb_putchar 13 s)).1 ∙ kept,
    )
put_one-IsPending false c b s q p slow h room =
    let only = gdb_putchar-IsPending c b s q p slow h (omega arith) in
    (only.0, only.1, omega (arith, only.2), (gdb_putchar-kept c s).1)

-- A string goes out in its order behind what was sent before, with a carriage return before each
-- line feed.
pub gdb_putstr-sent :
    (cs : List ℕ) (s : Console) → (gdb_putstr cs s).sent ≡ s.sent ++ with_returns cs
unfolding gdb_putstr
gdb_putstr-sent [] s = sym (append-nil s.sent)
gdb_putstr-sent (c ∷ cs) s =
    gdb_putstr-sent cs (put_one (c == 10) c s) ∙ put_one-sent (c == 10) c s (with_returns cs)

-- No character that comes in while a string goes out is lost or moved, if the ring has room for as
-- many as there are looks at the status: at most `b` for each of at most two characters sent for
-- each of the string.
pub gdb_putstr-IsPending :
    (cs : List ℕ) (b : ℕ) (s : Console) (q p : List ℕ)
    → ((k : ℕ) → s.busy k ≤ b)
    → IsPending s q p
    → length q + length cs * (b + b) < 128
    → (q' : List ℕ) × IsPending (gdb_putstr cs s) q' p
unfolding gdb_putstr
gdb_putstr-IsPending [] b s q p slow h room = (q, h)
gdb_putstr-IsPending (c ∷ cs) b s q p slow h room =
    let step = suc-mul (length cs) (b + b) in
    let one = put_one-IsPending (c == 10) c b s q p slow h (omega (arith, step)) in
    gdb_putstr-IsPending cs b (put_one (c == 10) c s) one.0 p
      (λ k. subst (λ f. f k ≤ b) (sym one.3) (slow k)) one.1 (omega (arith, step, one.2))
