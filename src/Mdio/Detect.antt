-- ===== src/Mdio/Detect.antt =====
-- Which PHY application/libhw/mdio.c talks to.
use or1k_spartan6_platform_x.Base.{
  ℕ, zero, suc, ◌+◌, ◌-◌, ◌*◌, ◌/◌, ◌%◌, ◌^◌, ◌<◌, ◌≤◌, ◌≡◌, ◌≢◌, inl, inr, refl, ap, subst, ◌∙◌,
  arith, false, Option, none, some, ◌==◌, ==_iff, if◌then◌else◌, Bool-cases,
}
use native.Mathlib.Decide.{dec_lt, ℕ_discrete}
use or1k_spartan6_platform_x.Mdio.{
  Controller, Mdio, address_fields, read_command, wait_ready, read_at, detect_loop, mdio_detect_phy,
  choose, choose_found, read_chosen, mdio_read_reg_sync, mdio_get_connection_status,
}

-- What the controller promises: a wait ends within the fuel, and behind a read command it leaves
-- the register of the PHY whose five-bit address was given in the low 16 bits of its data register.
pub record Answers {S : Type 0} (c : Controller S) (fuel : ℕ) (value : ℕ → ℕ → ℕ) : Type 0 where
  pub waits : (s : S) → (t : S) × (wait_ready c fuel s ≡ some t)
  pub reads :
      (phy reg : ℕ) (s t : S)
      → phy < 32
      → reg < 32
      → wait_ready c fuel (c.set_ctl (2147483648 + (phy * 32 + reg)) s) ≡ some t
      → c.reg_data t % 2 ^ 16 ≡ value phy reg

-- A PHY that was found takes the place of the remembered one.
abbrev pub remembered : Option ℕ → Option ℕ → Option ℕ
remembered none old = old
remembered (some k) old = some k

module _ (value : ℕ → ℕ → ℕ) where
  -- The first address from `i` to before `last` whose PHY answers, or none of them does.
  abbrev pub IsFirst : ℕ → ℕ → Option ℕ → Type 0
  IsFirst i last none = (j : ℕ) → i ≤ j → j < last → value (j % 32) 0 ≡ 0xffff
  IsFirst i last (some k) =
      (i ≤ k)
      × (k < last)
      × (value (k % 32) 0 ≢ 0xffff)
      × ((j : ℕ) → i ≤ j → j < k → value (j % 32) 0 ≡ 0xffff)

  value_from :
      (i j : ℕ)
      → value (i % 32) 0 ≡ 0xffff
      → i ≤ j
      → (i + 1 ≤ j → value (j % 32) 0 ≡ 0xffff)
      → value (j % 32) 0 ≡ 0xffff
  value_from i j silent l later = elim (ℕ_discrete i j) [
    | yes q ↦ subst (λ k. value (k % 32) 0 ≡ 0xffff) q silent
    | no q ↦ later (omega arith)
  ]

  IsFirst-back :
      (i last : ℕ) (found : Option ℕ)
      → value (i % 32) 0 ≡ 0xffff
      → IsFirst (i + 1) last found
      → IsFirst i last found
  IsFirst-back i last none silent h = λ j l g. value_from i j silent l (λ k. h j k g)
  IsFirst-back i last (some k) silent h =
      (omega (arith, h.0), h.1, h.2, λ j l g. value_from i j silent l (λ n. h.3 j n g))

  -- What is found from address 0 on is below 32: the upper half of the addresses asks the same PHYs again.
  pub IsFirst-lt : (k : ℕ) → IsFirst 0 64 (some k) → k < 32
  IsFirst-lt k h = elim (dec_lt k 32) [
    | yes lt ↦ lt
    | no ge ↦
        let below = h.3 (k - 32) (omega arith) (omega arith) in
        let same : (k - 32) % 32 ≡ k % 32 = omega (arith, h.1) in
        absurd (h.2 (subst (λ a. value a 0 ≡ 0xffff) same below))
  ]

  -- The link bit of register 1 of the PHY that the search from address 0 finds, or 0 without one.
  abbrev pub link_status : Option ℕ → ℕ
  link_status none = 0
  link_status (some k) = if value k 1 / 4 % 2 == 1 then 1 else 0

module _ {S : Type 0} (c : Controller S) (fuel : ℕ) (value : ℕ → ℕ → ℕ)
    (law : Answers c fuel value) where
  read_at-value :
      (phy reg : ℕ) (m : Mdio S)
      → (t : Mdio S) × (read_at c fuel phy reg m ≡ some (value (phy % 32) (reg % 32), t))
        × (t.last_detected ≡ m.last_detected)
  unfolding read_at read_command address_fields
  read_at-value phy reg m =
      let (idle, first) = law.waits m.controller in
      let (ended, second) = law.waits (c.set_ctl (2147483648 + (phy % 32 * 32 + reg % 32)) idle) in
      let word = law.reads (phy % 32) (reg % 32) idle ended (omega arith) (omega arith) second in
      (record m { controller = ended }, rw (first, second, word) refl, refl)

  abbrev Detects : ℕ → ℕ → Mdio S → Option (Option ℕ × Mdio S) → Type 0
  Detects i last m run =
      (found : Option ℕ) × (t : Mdio S) × (run ≡ some (found, t))
      × IsFirst value i last found
      × (t.last_detected ≡ remembered found m.last_detected)

  detect_loop-Detects :
      (left i last : ℕ) (m : Mdio S)
      → i + left ≡ last
      → Detects i last m (detect_loop c fuel left i m)
  unfolding detect_loop
  detect_loop-Detects zero i last m e = (none, m, refl, λ j l g. absurd (omega arith), refl)
  detect_loop-Detects (suc left) i last m e =
      let (t, run, kept) = read_at-value i 0 m in
      let (found, u, rest, first, end) = detect_loop-Detects left (i + 1) last t (omega arith) in
      elim (Bool-cases (value (i % 32) 0 == 0xffff)) [
        | inl silent ↦ (
          found,
          u,
          rw (run, silent) rest,
          IsFirst-back value i last found ((==_iff (value (i % 32) 0) 0xffff).0 silent) first,
          end ∙ ap (λ l. remembered found l) kept,
        )
        | inr heard ↦ (
          some i,
          record t { last_detected = some i },
          rw (run, heard) refl,
          (
            omega arith,
            omega arith,
            differs (value (i % 32) 0) heard,
            λ j l g. absurd (omega arith),
          ),
          refl,
        )
      ]
    where
      differs : (v : ℕ) → (v == 0xffff) ≡ false → v ≢ 0xffff
      differs v h q = ground arith

  -- The search ends, and it finds the first address from `start` to 63 whose PHY answers, which is
  -- remembered then. Without an answer there is none, and the remembered one stays. The controller
  -- gets done with each command in the looks that the fuel allows, and answers with the register
  -- of the PHY that the five bits of the address name.
  pub mdio_detect_phy-IsFirst :
      (start : ℕ) (m : Mdio S)
      → start ≤ 64
      → (found : Option ℕ) × (t : Mdio S) × (mdio_detect_phy c fuel start m ≡ some (found, t))
        × IsFirst value start 64 found
        × (t.last_detected ≡ remembered found m.last_detected)
  unfolding mdio_detect_phy
  mdio_detect_phy-IsFirst start m h = detect_loop-Detects (64 - start) start 64 m (omega arith)

  choose-detect :
      (m : Mdio S) → m.last_detected ≡ none → choose c fuel none m ≡ mdio_detect_phy c fuel 0 m
  unfolding choose choose_found
  choose-detect m fresh = ap (λ l. choose_found c fuel l m) fresh

  -- Where no PHY was found before, the connection status is the link bit of the first PHY that
  -- answers, at an address below 32 that is remembered then, and 0 if none answers. The controller
  -- gets done with each command in the looks that the fuel allows, and answers with the register
  -- of the PHY that the five bits of the address name.
  pub mdio_get_connection_status-link_status :
      (m : Mdio S)
      → m.last_detected ≡ none
      → (found : Option ℕ) × (t : Mdio S) × (mdio_get_connection_status c fuel none m
          ≡ some (link_status value found, t))
        × IsFirst value 0 32 found
        × (t.last_detected ≡ found)
  unfolding mdio_get_connection_status mdio_read_reg_sync read_chosen
  mdio_get_connection_status-link_status m fresh =
      let (found, t, run, first, last) = mdio_detect_phy-IsFirst 0 m (omega arith) in
      with_found found t run first (last ∙ ap (λ l. remembered found l) fresh)
    where
      with_found :
          (found : Option ℕ) (t : Mdio S)
          → mdio_detect_phy c fuel 0 m ≡ some (found, t)
          → IsFirst value 0 64 found
          → t.last_detected ≡ remembered found none
          → (found : Option ℕ) × (t : Mdio S) × (mdio_get_connection_status c fuel none m
              ≡ some (link_status value found, t))
            × IsFirst value 0 32 found
            × (t.last_detected ≡ found)
      with_found none t run first last =
          (none, t, rw (choose-detect m fresh, run) refl, λ j l g. first j l (omega arith), last)
      with_found (some k) t run first last =
          let below = IsFirst-lt value k first in
          let (u, reading, kept) = read_at-value k 1 t in
          let low : k % 32 ≡ k = omega arith in
          (
            some k,
            u,
            rw (choose-detect m fresh, run, reading, low) refl,
            (first.0, below, first.2, first.3),
            kept ∙ last,
          )
