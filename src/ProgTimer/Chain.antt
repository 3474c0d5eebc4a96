-- ===== src/ProgTimer/Chain.antt =====
-- The list of timers of application/libhw/prog_timer.c as a chain of heap cells.
use or1k_spartan6_platform_x.Base.{
  ◌≡◌, ◌≢◌, Bool, true, false, ◌||◌, refl, arith, Option, none, some, List, [], ◌∷◌, ◌==◌,
}
use or1k_spartan6_platform_x.ProgTimer.{Ptr, Timer, Node, node, Heap, write, State}

-- What a chain stands for: address and contents of each timer, in order.
abbrev pub Cells : Type 0
Cells = List (Ptr × Timer)

abbrev pub has : Ptr → Cells → Bool
has a [] = false
has a ((p, _) ∷ ts) = (a == p) || has a ts

-- From `p` the links lead through the distinct timers `ts` to `NULL`.
pub data Chain (h : Heap) : Ptr → Cells → Type 0 where
  nil : Chain h 0 []
  cons :
      {p q : Ptr} {t : Timer} {ts : Cells}
      → p ≢ 0
      → h p ≡ some (node q t)
      → has p ts ≡ false
      → Chain h q ts
      → Chain h p ((p, t) ∷ ts)

-- A chain survives every change that spares its addresses.
pub frame :
    {h g : Heap} {p : Ptr} {ts : Cells}
    → Chain h p ts
    → ((a : Ptr) → has a ts ≡ true → g a ≡ h a)
    → Chain g p ts
frame nil same = nil
frame (cons {p} ne e out c) same =
    cons ne (ground (arith, same p)) out (frame c λ a i. same a (ground arith))

pub frame-write :
    {h : Heap} {p : Ptr} {ts : Cells} (a : Ptr) (c : Option Node)
    → Chain h p ts
    → has a ts ≡ false
    → Chain (write h a c) p ts
unfolding write
frame-write a c s out = frame s (ground arith)

-- An address without a timer is not in the chain.
pub not_has :
    {h : Heap} {p : Ptr} {ts : Cells} (a : Ptr) → Chain h p ts → h a ≡ none → has a ts ≡ false
not_has a nil e = refl
not_has a (cons ne e' out c) e = ground (arith, not_has a c e)

pub write_self : (h : Heap) (p : Ptr) (c : Option Node) → write h p c p ≡ c
unfolding write
write_self h p c = ground arith

pub write_other : (h : Heap) (p a : Ptr) (c : Option Node) → a ≢ p → write h p c a ≡ h a
unfolding write
write_other h p a c ne = ground arith

pub ne_null : (p : Ptr) → p ≢ 0 → (p == 0) ≡ false
ne_null p ne = ground arith

pub has-ne_null :
    {h : Heap} {p : Ptr} {ts : Cells} (a : Ptr) → Chain h p ts → has a ts ≡ true → a ≢ 0
has-ne_null a nil i = cc
has-ne_null a (cons ne e out c) i = ground (arith, has-ne_null a c)

pub head-ne :
    {h : Heap} {p : Ptr} {ts : Cells} (a : Ptr) → Chain h p ts → has a ts ≡ false → a ≢ 0 → a ≢ p
head-ne a nil o nz = nz
head-ne a (cons ne e out c) o nz = ground arith

-- A state whose head leads through the timers `ts`.
abbrev pub Holds : {W : Type 0} → State W → Cells → Type 0
Holds m ts = Chain m.cells m.head ts
